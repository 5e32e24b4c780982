-- ===== src/Sort.antt =====
-- `Array.prototype.sort` with a comparison, over any type whose values are totally ordered, and
-- the removal of equal neighbours that utils/merkle-tree.ts makes after it.
pub mod Ascending
pub mod Codes
use bsc_alpaca_contract.Prelude.{◌≡◌, ◌↔◌, Bool, true, false, List, [], ◌∷◌, if◌then◌else◌, ◌||◌}

-- A comparison function: `less a b` is a negative result, `same a b` is 0.
pub record Ord {ℓ} (A : Type ℓ) : Type ℓ where
  pub less : A → A → Bool
  pub same : A → A → Bool
  pub same_iff : (a b : A) → (same a b ≡ true) ↔ (a ≡ b)
  pub less_irrefl : (a : A) → less a a ≡ false
  pub less_trans : (a b c : A) → less a b ≡ true → less b c ≡ true → less a c ≡ true
  pub less_total : (a b : A) → less a b ≡ false → less b a ≡ false → same a b ≡ true

module _ {ℓ} {A : Type ℓ} ⦃o : Ord A⦄ where
  -- An element goes in front of the first one that is not less than it.
  unfoldable pub insert_sorted : A → List A → List A
  insert_sorted x [] = x ∷ []
  insert_sorted x (y ∷ ys) = if o.less y x then y ∷ insert_sorted x ys else x ∷ y ∷ ys

  -- `xs.sort(compare)`; equal elements keep their order
  unfoldable pub sort : List A → List A
  unfolding insert_sorted
  sort [] = []
  sort (x ∷ xs) = insert_sorted x (sort xs)

  -- The elements after `prev` that differ from their predecessor.
  unfoldable pub dedup_from : A → List A → List A
  dedup_from prev [] = []
  dedup_from prev (x ∷ xs) = let rest = dedup_from x xs in if o.same prev x then rest else x ∷ rest

  -- `elements.filter((el, idx) => idx === 0 || !elements[idx - 1].equals(el))`
  unfoldable pub dedup : List A → List A
  unfolding dedup_from
  dedup [] = []
  dedup (x ∷ xs) = x ∷ dedup_from x xs

  -- Whether an element occurs.
  unfoldable pub contains : A → List A → Bool
  contains a [] = false
  contains a (x ∷ xs) = o.same x a || contains a xs
