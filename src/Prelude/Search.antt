-- ===== src/Prelude/Search.antt =====
-- `find` and `findIndex` of arrays.
use Prim.Native.Nat.{ℕ, suc}
use mathlib.Core.Path.{◌≡◌, refl}
use mathlib.Core.Bool.{Bool, true, false}
use mathlib.Core.List.{List, [], ◌∷◌, ◌++◌}
use mathlib.Core.Logic.{inl, inr}
use mathlib.Core.Option.{Option, none, some}
use bsc_alpaca_contract.Prelude.Tests.{if◌then◌else◌, Bool-cases}
use bsc_alpaca_contract.Prelude.Lists.{set}

-- the index after one more element
abbrev pub later : Option ℕ → Option ℕ
later none = none
later (some i) = some (suc i)

-- "`find` or else": the value there, or that of the rest
abbrev pub or_else {ℓ} : {A : Type ℓ} → Option A → Option A → Option A
or_else none b = b
or_else (some a) b = some a

module _ {ℓ} {A : Type ℓ} where
  -- `xs.findIndex(p)`, with `none` for -1
  abbrev pub find_index : (A → Bool) → List A → Option ℕ
  find_index p [] = none
  find_index p (x ∷ xs) = if p x then some 0 else later (find_index p xs)

  -- `xs.find(p)`, with `none` for `undefined`
  abbrev pub find : (A → Bool) → List A → Option A
  find p [] = none
  find p (x ∷ xs) = if p x then some x else find p xs

  -- the element at the index replaced, or the element added at the end
  abbrev pub put_at : Option ℕ → A → List A → List A
  put_at none v xs = xs ++ (v ∷ [])
  put_at (some i) v xs = set xs i v

  abbrev pub upsert : (A → Bool) → A → List A → List A
  upsert p v xs = put_at (find_index p xs) v xs

  put_at-later :
      (i : Option ℕ) (v x : A) (xs : List A) → put_at (later i) v (x ∷ xs) ≡ x ∷ put_at i v xs
  put_at-later none v x xs = refl
  put_at-later (some i) v x xs = refl

  upsert-here : (p : A → Bool) (v x : A) (xs : List A) → p x ≡ true → upsert p v (x ∷ xs) ≡ v ∷ xs
  upsert-here p v x xs h = rw (h, find_index, upsert) refl

  -- `upsert` goes on behind an element that fails the test.
  upsert-later :
      (p : A → Bool) (v x : A) (xs : List A) → p x ≡ false → upsert p v (x ∷ xs) ≡ x ∷ upsert p v xs
  upsert-later p v x xs h = rw (h, find_index, upsert) (put_at-later (find_index p xs) v x xs)

  -- An element with the key is found after `upsert`.
  pub find-upsert :
      (p : A → Bool) (v : A) (xs : List A) → p v ≡ true → find p (upsert p v xs) ≡ some v
  find-upsert p v [] h = rw h refl
  find-upsert p v (x ∷ xs) h = elim (Bool-cases (p x)) [
    | inl here ↦ rw (upsert-here p v x xs here, h) refl
    | inr not_here ↦ rw (upsert-later p v x xs not_here, not_here) (find-upsert p v xs h)
  ]

  -- An element that fails the test is found as before by any test that tells it from the new one.
  pub find-upsert_other :
      (p q : A → Bool) (v : A) (xs : List A)
      → q v ≡ false
      → ((x : A) → p x ≡ true → q x ≡ false)
      → find q (upsert p v xs) ≡ find q xs
  find-upsert_other p q v [] h apart = rw h refl
  find-upsert_other p q v (x ∷ xs) h apart = elim (Bool-cases (p x)) [
    | inl here ↦ rw (upsert-here p v x xs here, h, apart x here) refl
    | inr not_here ↦
        let rest = find-upsert_other p q v xs h apart in
        rw (upsert-later p v x xs not_here, rest) refl
  ]

  -- What is found satisfies the test.
  pub find-holds : (p : A → Bool) (xs : List A) {x : A} → find p xs ≡ some x → p x ≡ true
  find-holds p [] e = cc
  find-holds p (y ∷ xs) {x} e = elim (Bool-cases (p y)) [
    | inl here ↦ let same : y ≡ x = cc in rw (← same) here
    | inr not_here ↦ find-holds p xs (rw not_here at e)
  ]

  pub find-append :
      (p : A → Bool) (xs ys : List A) → find p (xs ++ ys) ≡ or_else (find p xs) (find p ys)
  find-append p [] ys = refl
  find-append p (x ∷ xs) ys = elim (Bool-cases (p x)) [
    | inl here ↦ rw here refl
    | inr not_here ↦ rw (not_here, find-append p xs ys) refl
  ]

pub later-suc : (o : Option ℕ) (i : ℕ) → later o ≡ some (suc i) → o ≡ some i
later-suc none i h = cc
later-suc (some j) i h = cc

-- An index past the first is an index in the rest.
pub find_index-later {ℓ} :
    {A : Type ℓ} (p : A → Bool) (x : A) (xs : List A) (i : ℕ)
    → find_index p (x ∷ xs) ≡ some (suc i)
    → find_index p xs ≡ some i
find_index-later p x xs i h = elim (Bool-cases (p x)) [
  | inl here ↦ let zero_first : some 0 ≡ some (suc i) = rw (find_index, here) at h in cc
  | inr not_here ↦
      let found : later (find_index p xs) ≡ some (suc i) = rw (find_index, not_here) at h in
      later-suc (find_index p xs) i found
]
