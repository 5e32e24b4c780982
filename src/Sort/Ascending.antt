-- ===== src/Sort/Ascending.antt =====
-- Sorting and deduplication give the one strictly ascending list with the same elements.
use bsc_alpaca_contract.Prelude.{
  ◌+◌, ◌≤◌, length, ◌≡◌, refl, ap₂, true, false, List, [], ◌∷◌, ◌||◌, arith, All, Bool-cases, inl,
  inr,
}
use bsc_alpaca_contract.Sort.{Ord, insert_sorted, sort, dedup_from, dedup, contains}

module _ {ℓ} {A : Type ℓ} ⦃o : Ord A⦄ where
  abbrev pub IsAbove : A → List A → Type 0
  IsAbove a = All (λ b. o.less a b ≡ true)

  -- Each element is less than all the later ones.
  abbrev pub IsAscending : List A → Type 0
  IsAscending [] = Unit
  IsAscending (x ∷ xs) = IsAbove x xs × IsAscending xs

  -- no later element is less
  abbrev NotBelow : A → List A → Type 0
  NotBelow a = All (λ b. o.less b a ≡ false)

  abbrev pub IsSorted : List A → Type 0
  IsSorted [] = Unit
  IsSorted (x ∷ xs) = NotBelow x xs × IsSorted xs

  abbrev pub SameElements : List A → List A → Type ℓ
  SameElements xs ys = (a : A) → contains a xs ≡ contains a ys

  same_refl : (a : A) → o.same a a ≡ true
  same_refl a = (o.same_iff a a).1 refl

  not_less_trans : (a b c : A) → o.less b a ≡ false → o.less c b ≡ false → o.less c a ≡ false
  not_less_trans a b c p q = elim (Bool-cases (o.less c a)) [
    | inr f ↦ f
    | inl t ↦ elim (Bool-cases (o.less a b)) [
      | inl ab ↦ ground (arith, o.less_trans c a b t ab)
      | inr ab ↦ ground (arith, o.same_iff a b, o.less_total a b ab p)
    ]
  ]

  NotBelow-trans : (a b : A) (xs : List A) → o.less b a ≡ false → NotBelow b xs → NotBelow a xs
  NotBelow-trans a b [] p h = tt
  NotBelow-trans a b (x ∷ xs) p h = (not_less_trans a b x p h.0, NotBelow-trans a b xs p h.1)

  not_less_flip : (a b : A) → o.less a b ≡ true → o.less b a ≡ false
  not_less_flip a b h = ground (arith, o.less_trans a b a h, o.less_irrefl a)

  insert_sorted-NotBelow :
      (a x : A) (xs : List A) → o.less x a ≡ false → NotBelow a xs → NotBelow a (insert_sorted x xs)
  unfolding insert_sorted
  insert_sorted-NotBelow a x [] p h = (p, tt)
  insert_sorted-NotBelow a x (y ∷ ys) p h = elim (Bool-cases (o.less y x)) [
    | inl e ↦ rw e (h.0, insert_sorted-NotBelow a x ys p h.1)
    | inr e ↦ rw e (p, h)
  ]

  insert_sorted-IsSorted : (x : A) (xs : List A) → IsSorted xs → IsSorted (insert_sorted x xs)
  unfolding insert_sorted
  insert_sorted-IsSorted x [] h = (tt, tt)
  insert_sorted-IsSorted x (y ∷ ys) h = elim (Bool-cases (o.less y x)) [
    | inl e ↦
        rw e
          (insert_sorted-NotBelow y x ys (not_less_flip y x e) h.0, insert_sorted-IsSorted x ys h.1)
    | inr e ↦ rw e ((e, NotBelow-trans x y ys e h.0), h)
  ]

  -- A sorted array is in order.
  pub sort-IsSorted : (xs : List A) → IsSorted (sort xs)
  unfolding sort
  sort-IsSorted [] = tt
  sort-IsSorted (x ∷ xs) = insert_sorted-IsSorted x (sort xs) (sort-IsSorted xs)

  contains-insert_sorted :
      (a x : A) (xs : List A) → contains a (insert_sorted x xs) ≡ (o.same x a || contains a xs)
  unfolding insert_sorted contains
  contains-insert_sorted a x [] = refl
  contains-insert_sorted a x (y ∷ ys) = ground (arith, contains-insert_sorted a x ys)

  -- Sorting keeps the elements.
  pub contains-sort : (a : A) (xs : List A) → contains a (sort xs) ≡ contains a xs
  unfolding sort contains
  contains-sort a [] = refl
  contains-sort a (x ∷ xs) =
      ground (arith, contains-insert_sorted a x (sort xs), contains-sort a xs)

  contains-dedup_from :
      (a p : A) (xs : List A)
      → (o.same p a || contains a (dedup_from p xs)) ≡ (o.same p a || contains a xs)
  unfolding dedup_from contains
  contains-dedup_from a p [] = refl
  contains-dedup_from a p (x ∷ xs) =
      ground (arith, contains-dedup_from a x xs, o.same_iff p x, o.same_iff p a, o.same_iff x a)

  -- Deduplication keeps the elements.
  pub contains-dedup : (a : A) (xs : List A) → contains a (dedup xs) ≡ contains a xs
  unfolding dedup contains
  contains-dedup a [] = refl
  contains-dedup a (x ∷ xs) = contains-dedup_from a x xs

  IsAbove-trans : (a b : A) (xs : List A) → o.less a b ≡ true → IsAbove b xs → IsAbove a xs
  IsAbove-trans a b [] p h = tt
  IsAbove-trans a b (x ∷ xs) p h = (o.less_trans a b x p h.0, IsAbove-trans a b xs p h.1)

  dedup_from-IsAscending :
      (p : A) (xs : List A) → NotBelow p xs → IsSorted xs → IsAscending (p ∷ dedup_from p xs)
  unfolding dedup_from
  dedup_from-IsAscending p [] low s = (tt, tt)
  dedup_from-IsAscending p (x ∷ xs) low s =
      let (above, ascending) = dedup_from-IsAscending x xs s.0 s.1 in
      elim (Bool-cases (o.same p x)) [
        | inl e ↦ rw (e, (o.same_iff p x).0 e) (above, ascending)
        | inr e ↦
            let p-less-x : o.less p x ≡ true = ground (arith, o.less_total p x, low.0) in
            rw e ((p-less-x, IsAbove-trans p x _ p-less-x above), (above, ascending))
      ]

  -- What the tree keeps of its elements is in strictly ascending order.
  pub dedup-sort-IsAscending : (xs : List A) → IsAscending (dedup (sort xs))
  unfolding dedup
  dedup-sort-IsAscending xs = of_sorted (sort xs) (sort-IsSorted xs)
    where
      of_sorted : (ys : List A) → IsSorted ys → IsAscending (dedup ys)
      of_sorted [] s = tt
      of_sorted (y ∷ ys) s = dedup_from-IsAscending y ys s.0 s.1

  pub contains-dedup-sort : (a : A) (xs : List A) → contains a (dedup (sort xs)) ≡ contains a xs
  contains-dedup-sort a xs = rw (contains-dedup, contains-sort)

  pub less_of_contains :
      (a b : A) (xs : List A) → IsAbove a xs → contains b xs ≡ true → o.less a b ≡ true
  unfolding contains
  less_of_contains a b [] h c = cc
  less_of_contains a b (x ∷ xs) h c = ground (arith, o.same_iff x b, less_of_contains a b xs h.1)

  pub not-contains_above : (a : A) (xs : List A) → IsAbove a xs → contains a xs ≡ false
  not-contains_above a xs h = ground (arith, less_of_contains a a xs h, o.less_irrefl a)

  heads_same :
      (x y : A) (xs ys : List A)
      → IsAbove x xs
      → IsAbove y ys
      → SameElements (x ∷ xs) (y ∷ ys)
      → x ≡ y
  unfolding contains
  heads_same x y xs ys hx hy e = ground (
    arith,
    e x,
    e y,
    same_refl x,
    same_refl y,
    o.same_iff x y,
    o.same_iff y x,
    less_of_contains x y xs hx,
    less_of_contains y x ys hy,
    o.less_trans x y x,
    o.less_irrefl x,
  )

  tails_same :
      (x : A) (xs ys : List A)
      → IsAbove x xs
      → IsAbove x ys
      → SameElements (x ∷ xs) (x ∷ ys)
      → SameElements xs ys
  unfolding contains
  tails_same x xs ys hx hy e a =
      ground (arith, e a, o.same_iff x a, not-contains_above x xs hx, not-contains_above x ys hy)

  contains-nil : (a : A) → contains a [] ≡ false
  unfolding contains
  contains-nil a = refl

  contains-head : (a : A) (xs : List A) → contains a (a ∷ xs) ≡ true
  unfolding contains
  contains-head a xs = ground (arith, same_refl a)

  -- Two ascending arrays with the same elements are one array.
  pub IsAscending-unique :
      (xs ys : List A) → IsAscending xs → IsAscending ys → SameElements xs ys → xs ≡ ys
  IsAscending-unique [] [] hx hy e = refl
  IsAscending-unique [] (y ∷ ys) hx hy e =
      ground (arith, e y, same_refl y, contains-nil y, contains-head y ys)
  IsAscending-unique (x ∷ xs) [] hx hy e =
      ground (arith, e x, same_refl x, contains-nil x, contains-head x xs)
  IsAscending-unique (x ∷ xs) (y ∷ ys) hx hy e =
      let p = heads_same x y xs ys hx.0 hy.0 e in
      let hy' : IsAbove x ys = rw p hy.0 in
      let e' : SameElements (x ∷ xs) (x ∷ ys) = rw (← p) at e in
      ap₂ ◌∷◌ p (IsAscending-unique xs ys hx.1 hy.1 (tails_same x xs ys hx.0 hy' e'))

  -- Sorting and deduplication do not depend on the order or the number of the elements.
  pub dedup-sort_unique : (xs ys : List A) → SameElements xs ys → dedup (sort xs) ≡ dedup (sort ys)
  dedup-sort_unique xs ys e =
      IsAscending-unique (dedup (sort xs)) (dedup (sort ys)) (dedup-sort-IsAscending xs)
        (dedup-sort-IsAscending ys) (λ a. simp contains-dedup-sort (e a))

  length-insert_sorted : (x : A) (xs : List A) → length (insert_sorted x xs) ≡ length xs + 1
  unfolding insert_sorted
  length-insert_sorted x [] = omega arith
  length-insert_sorted x (y ∷ ys) = ground (arith, length-insert_sorted x ys)

  length-sort : (xs : List A) → length (sort xs) ≡ length xs
  unfolding sort
  length-sort [] = refl
  length-sort (x ∷ xs) = omega (arith, length-insert_sorted x (sort xs), length-sort xs)

  length-dedup_from-le : (p : A) (xs : List A) → length (dedup_from p xs) ≤ length xs
  unfolding dedup_from
  length-dedup_from-le p [] = omega arith
  length-dedup_from-le p (x ∷ xs) = ground (arith, length-dedup_from-le x xs)

  length-dedup-le : (xs : List A) → length (dedup xs) ≤ length xs
  unfolding dedup
  length-dedup-le [] = omega arith
  length-dedup-le (x ∷ xs) = omega (arith, length-dedup_from-le x xs)

  pub length-dedup-sort-le : (xs : List A) → length (dedup (sort xs)) ≤ length xs
  length-dedup-sort-le xs = omega (arith, length-dedup-le (sort xs), length-sort xs)
