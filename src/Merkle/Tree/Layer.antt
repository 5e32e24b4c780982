-- ===== src/Merkle/Tree/Layer.antt =====
-- `getNextLayer`, and what it does to an element and to the number of elements.
use bsc_alpaca_contract.Prelude.{
  ℕ, zero, suc, ◌+◌, ◌-◌, ◌/◌, ◌%◌, ◌≡◌, refl, List, [], ◌∷◌, head?, Option, none, some, arith, ltb,
  ◌==◌, length, get_elem?, if◌then◌else◌,
}
use bsc_alpaca_contract.Merkle.Bytes.{Buffer}
use bsc_alpaca_contract.Merkle.Hash.{combined_hash, combined_hash_comm}

-- `layer.push(x)` in front of what the later rounds push; `x` is never `undefined` here
abbrev pub push : Option Buffer → List Buffer → List Buffer
push none layer = layer
push (some x) layer = x ∷ layer

-- `idx % 2 === 0 ? idx + 1 : idx - 1`
unfoldable pub pair_index : ℕ → ℕ
pair_index idx = if idx % 2 == 0 then idx + 1 else idx - 1

-- The neighbour of an element in its layer, or `null`.
unfoldable pub get_pair_element : ℕ → List Buffer → Option Buffer
unfolding pair_index
get_pair_element idx layer =
    let pair_idx : ℕ = pair_index idx in
    if ltb pair_idx (length layer) then get_elem? layer pair_idx else none

pair_index-suc-suc : (i : ℕ) → pair_index (suc (suc i)) ≡ suc (suc (pair_index i))
unfolding pair_index
pair_index-suc-suc i = ground arith

get_pair_element-skip :
    (i : ℕ) (x y : Buffer) (l : List Buffer)
    → get_pair_element (suc (suc i)) (x ∷ y ∷ l) ≡ get_pair_element i l
unfolding get_pair_element
get_pair_element-skip i x y l = rw (pair_index-suc-suc i) (ground arith)

get_pair_element-zero : (x y : Buffer) (l : List Buffer) → get_pair_element 0 (x ∷ y ∷ l) ≡ some y
unfolding get_pair_element
get_pair_element-zero x y l = ground arith

get_pair_element-one : (x y : Buffer) (l : List Buffer) → get_pair_element 1 (x ∷ y ∷ l) ≡ some x
unfolding get_pair_element
get_pair_element-one x y l = ground arith

module _ (keccak256 : Buffer → Buffer) where
  -- The rounds of `reduce` from `idx` on; `arr[idx + 1]` is the head of what is left.
  unfoldable pub next_layer_from : ℕ → List Buffer → List Buffer
  next_layer_from idx [] = []
  next_layer_from idx (el ∷ rest) =
      let later = next_layer_from (idx + 1) rest in
      if idx % 2 == 0 then push (combined_hash keccak256 (some el) (head? rest)) later else later

  unfoldable pub get_next_layer : List Buffer → List Buffer
  unfolding next_layer_from
  get_next_layer elements = next_layer_from 0 elements

  next_layer_from-pair :
      (idx : ℕ) (x y : Buffer) (rest : List Buffer)
      → idx % 2 ≡ 0
      → next_layer_from idx (x ∷ y ∷ rest)
        ≡ push (combined_hash keccak256 (some x) (some y)) (next_layer_from (idx + 1 + 1) rest)
  unfolding next_layer_from combined_hash
  next_layer_from-pair idx x y rest e = ground arith

  next_layer_from-shift :
      (i j : ℕ) (l : List Buffer) → i % 2 ≡ j % 2 → next_layer_from i l ≡ next_layer_from j l
  unfolding next_layer_from
  next_layer_from-shift i j [] e = refl
  next_layer_from-shift i j (x ∷ l) e =
      rw (e, next_layer_from-shift (i + 1) (j + 1) l (omega arith))

  -- Two elements become one.
  pub get_next_layer-pair :
      (x y : Buffer) (rest : List Buffer)
      → get_next_layer (x ∷ y ∷ rest)
        ≡ push (combined_hash keccak256 (some x) (some y)) (get_next_layer rest)
  unfolding get_next_layer
  get_next_layer-pair x y rest = rw (next_layer_from-shift 2 0 rest refl)

  -- A layer has half as many elements, rounded up.
  pub length-get_next_layer : (l : List Buffer) → length (get_next_layer l) ≡ (length l + 1) / 2
  unfolding get_next_layer combined_hash
  length-get_next_layer [] = refl
  length-get_next_layer (x ∷ []) = refl
  length-get_next_layer (x ∷ y ∷ rest) =
      rw (next_layer_from-shift 2 0 rest refl) (omega (arith, length-get_next_layer rest))

  get_next_layer-skip :
      (x y : Buffer) (rest : List Buffer) (i : ℕ)
      → get_elem? (get_next_layer (x ∷ y ∷ rest)) (suc i) ≡ get_elem? (get_next_layer rest) i
  unfolding combined_hash
  get_next_layer-skip x y rest i = rw (get_next_layer-pair x y rest)

  -- An element and its neighbour, if it has one, give the element of the next layer.
  pub get_next_layer-at :
      (l : List Buffer) (idx : ℕ) (el : Buffer)
      → get_elem? l idx ≡ some el
      → get_elem? (get_next_layer l) (idx / 2)
        ≡ combined_hash keccak256 (some el) (get_pair_element idx l)
  get_next_layer-at [] idx el h = cc
  get_next_layer-at (x ∷ []) zero el h = unfold get_next_layer combined_hash get_pair_element in h
  get_next_layer-at (x ∷ []) (suc i) el h = cc
  get_next_layer-at (x ∷ y ∷ rest) zero el h =
      rw (get_pair_element-zero x y rest, ← h) (unfold get_next_layer combined_hash in refl)
  get_next_layer-at (x ∷ y ∷ rest) (suc zero) el h =
      rw (get_pair_element-one x y rest, ← h, combined_hash_comm keccak256 (some y) (some x))
        (unfold get_next_layer combined_hash in refl)
  get_next_layer-at (x ∷ y ∷ rest) (suc (suc i)) el h =
      let half : suc (suc i) / 2 ≡ suc (i / 2) = omega arith in
      rw (half, get_next_layer-skip x y rest (i / 2), get_pair_element-skip i x y rest)
        (get_next_layer-at rest i el h)
