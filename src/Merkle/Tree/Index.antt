-- ===== src/Merkle/Tree/Index.antt =====
-- `bufferElementPositionIndex`: the position of an element is found by its hexadecimal text.
use bsc_alpaca_contract.Prelude.{
  ℕ, zero, suc, ◌+◌, String, ◌≡◌, refl, ap, ◌∙◌, true, false, List, [], ◌∷◌, none, some, arith,
  eq_iff, eq_refl, ◌===◌, Dict, lookup, insert, lookup-insert, get_elem?, Bool-cases, inl, inr,
}
use bsc_alpaca_contract.Sort.{contains}
use bsc_alpaca_contract.Sort.Codes.{codes_ord}
use bsc_alpaca_contract.Sort.Ascending.{IsAscending, not-contains_above}
use bsc_alpaca_contract.Merkle.Bytes.{Buffer, IsBytes}
use bsc_alpaca_contract.Merkle.Tree.{position_index}

-- Every element of the array has the property.
abbrev pub Every : (Buffer → Type 0) → List Buffer → Type 0
Every P xs = (b : Buffer) → contains b xs ≡ true → P b

pub contains_here : (x : Buffer) (xs : List Buffer) → contains x (x ∷ xs) ≡ true
unfolding contains
contains_here x xs = ground (arith, (codes_ord.same_iff x x).1 refl)

contains_there :
    (b x : Buffer) (xs : List Buffer) → contains b xs ≡ true → contains b (x ∷ xs) ≡ true
unfolding contains
contains_there b x xs h = ground arith

not_contains-cons :
    (b x : Buffer) (xs : List Buffer)
    → contains b (x ∷ xs) ≡ false
    → (codes_ord.same x b ≡ false) × (contains b xs ≡ false)
unfolding contains
not_contains-cons b x xs h = ground arith

pub Every-tail :
    {P : Buffer → Type 0} (x : Buffer) (xs : List Buffer) → Every P (x ∷ xs) → Every P xs
Every-tail x xs h b c = h b (contains_there b x xs c)

-- An element that occurs has a position.
pub position_of :
    (el : Buffer) (xs : List Buffer) → contains el xs ≡ true → (j : ℕ) × (get_elem? xs j ≡ some el)
unfolding contains
position_of el [] h = cc
position_of el (x ∷ xs) h = elim (Bool-cases (codes_ord.same x el)) [
  | inl e ↦ (0, ap some ((codes_ord.same_iff x el).0 e))
  | inr e ↦ let (j, found) = position_of el xs (ground arith) in (suc j, found)
]

pub contains_at :
    (el : Buffer) (xs : List Buffer) (j : ℕ) → get_elem? xs j ≡ some el → contains el xs ≡ true
contains_at el [] j h = cc
contains_at el (x ∷ xs) zero h = ground (arith, contains_here x xs)
contains_at el (x ∷ xs) (suc j) h = contains_there el x xs (contains_at el xs j h)

module _ (buffer_to_hex : Buffer → String)
    (hex_injective : (b c : Buffer)
      → IsBytes b
      → IsBytes c
      → buffer_to_hex b ≡ buffer_to_hex c
      → b ≡ c) where
  hex_differs :
      (x k : Buffer)
      → IsBytes x
      → IsBytes k
      → codes_ord.same x k ≡ false
      → (buffer_to_hex x === buffer_to_hex k) ≡ false
  hex_differs x k bx bk d = elim (Bool-cases (buffer_to_hex x === buffer_to_hex k)) [
    | inr e ↦ e
    | inl e ↦
        let p = hex_injective x k bx bk ((eq_iff (buffer_to_hex x) (buffer_to_hex k)).0 e) in
        cc (d, (codes_ord.same_iff x k).1 p)
  ]

  -- the text of an element that is not in the array is not a key
  absent :
      (k : Buffer) (i : ℕ) (xs : List Buffer) (memo : Dict ℕ)
      → IsBytes k
      → Every IsBytes xs
      → contains k xs ≡ false
      → lookup (buffer_to_hex k) (position_index buffer_to_hex i xs memo)
        ≡ lookup (buffer_to_hex k) memo
  unfolding position_index
  absent k i [] memo bk bx h = refl
  absent k i (x ∷ xs) memo bk bx h =
      let (differs, later) = not_contains-cons k x xs h in
      let other = hex_differs x k (bx x (contains_here x xs)) bk differs in
      absent k (i + 1) xs (insert (buffer_to_hex x) i memo) bk (Every-tail x xs bx) later
      ∙ rw (lookup-insert (buffer_to_hex x) (buffer_to_hex k) i memo, other)

  pub position_index-at :
      (i j : ℕ) (el : Buffer) (xs : List Buffer) (memo : Dict ℕ)
      → Every IsBytes xs
      → IsAscending xs
      → get_elem? xs j ≡ some el
      → lookup (buffer_to_hex el) (position_index buffer_to_hex i xs memo) ≡ some (i + j)
  unfolding position_index
  position_index-at i j el [] memo b a h = cc
  position_index-at i zero el (x ∷ xs) memo b a h =
      let e : x ≡ el = ground arith in
      let hex = buffer_to_hex x in
      rw (← e) (
        absent x (i + 1) xs (insert hex i memo) (b x (contains_here x xs)) (Every-tail x xs b)
          (not-contains_above x xs a.0)
        ∙ rw (lookup-insert hex hex i memo, eq_refl hex) (ap some (omega arith)))
  position_index-at i (suc j) el (x ∷ xs) memo b a h =
      position_index-at (i + 1) j el xs (insert (buffer_to_hex x) i memo) (Every-tail x xs b) a.1 h
      ∙ ap some (omega arith)

  pub position_index-absent :
      (el : Buffer) (xs : List Buffer)
      → IsBytes el
      → Every IsBytes xs
      → contains el xs ≡ false
      → lookup (buffer_to_hex el) (position_index buffer_to_hex 0 xs []) ≡ none
  unfolding lookup
  position_index-absent el xs be bx h = absent el 0 xs [] be bx h
