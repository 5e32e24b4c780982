-- ===== src/Merkle/Tree/Hex.antt =====
-- `getHexProof`: the layers hold bytes, so a proof is read back from its hexadecimal texts.
use mathlib.Core.WellFounded.{Acc}
use bsc_alpaca_contract.Prelude.{
  ℕ, zero, suc, ◌+◌, ◌/◌, ◌%◌, String, ◌≡◌, refl, ap₂, List, [], ◌∷◌, map, head?, Option, none,
  some, arith, ok, ltb, ◌==◌, length, get_elem?, All, if_intro, Shorter,
}
use bsc_alpaca_contract.Merkle.Bytes.{
  Buffer, IsBytes, to_hex, from_hex, from_hex-to_hex, with_prefix, without_prefix,
}
use bsc_alpaca_contract.Merkle.Hash.{combined_hash}
use bsc_alpaca_contract.Merkle.Tree.{MerkleTree, layers_from, proof_from, get_proof, get_hex_proof}
use bsc_alpaca_contract.Merkle.Tree.Layer.{
  pair_index, get_pair_element, next_layer_from, get_next_layer, push,
}
use bsc_alpaca_contract.Merkle.Tree.Layers.{layers_induction}
use bsc_alpaca_contract.Merkle.Tree.Proof.{proof_from-cons}
use bsc_alpaca_contract.Merkle.Tree.Index.{Every, Every-tail, contains_here}

-- How a verifier reads one element of a proof.
abbrev pub decode : String → Buffer
decode s = from_hex (without_prefix s)

pub Every-All : (xs : List Buffer) → Every IsBytes xs → All IsBytes xs
Every-All [] h = tt
Every-All (x ∷ xs) h = (h x (contains_here x xs), Every-All xs (Every-tail x xs h))

All-get_elem? :
    (xs : List Buffer) (i : ℕ) {x : Buffer} → All IsBytes xs → get_elem? xs i ≡ some x → IsBytes x
All-get_elem? [] i h e = cc
All-get_elem? (y ∷ xs) zero {x} h e = let p : y ≡ x = ground arith in rw p at h.0
All-get_elem? (y ∷ xs) (suc i) h e = All-get_elem? xs i h.1 e

-- `none` or a buffer of bytes
abbrev OptionBytes : Option Buffer → Type 0
OptionBytes none = Unit
OptionBytes (some x) = IsBytes x

OptionBytes-get_elem? : (xs : List Buffer) (i : ℕ) → All IsBytes xs → OptionBytes (get_elem? xs i)
OptionBytes-get_elem? [] i h = tt
OptionBytes-get_elem? (x ∷ xs) zero h = h.0
OptionBytes-get_elem? (x ∷ xs) (suc i) h = OptionBytes-get_elem? xs i h.1

OptionBytes-get_pair_element :
    (idx : ℕ) (layer : List Buffer) → All IsBytes layer → OptionBytes (get_pair_element idx layer)
unfolding get_pair_element
OptionBytes-get_pair_element idx layer h =
    let i = pair_index idx in
    if_intro OptionBytes (ltb i (length layer)) {x = get_elem? layer i} {y = none}
      (OptionBytes-get_elem? layer i h) tt

add-IsBytes :
    (pair : Option Buffer) (later : List Buffer)
    → OptionBytes pair
    → All IsBytes later
    → All IsBytes (elim pair [ none ↦ later | some p ↦ p ∷ later ])
add-IsBytes none later h hs = hs
add-IsBytes (some p) later h hs = (h, hs)

proof_from-IsBytes :
    (idx : ℕ) (layers : List (List Buffer))
    → All (All IsBytes) layers
    → All IsBytes (proof_from idx layers)
proof_from-IsBytes idx [] h = unfold proof_from in tt
proof_from-IsBytes idx (layer ∷ layers) h = rw (proof_from-cons idx layer layers) (
    add-IsBytes (get_pair_element idx layer) (proof_from (idx / 2) layers)
      (OptionBytes-get_pair_element idx layer h.0) (proof_from-IsBytes (idx / 2) layers h.1))

decode_encoded :
    (proof : List Buffer)
    → All IsBytes proof
    → map decode (map (λ b. with_prefix (to_hex b)) proof) ≡ proof
decode_encoded [] h = refl
decode_encoded (b ∷ proof) h = ap₂ ◌∷◌ (from_hex-to_hex b h.0) (decode_encoded proof h.1)

-- If `getProof` returns a proof of an element, and the proof consists of bytes, then `getHexProof`
-- returns texts that decode to that proof, each to its buffer, in order.
pub get_hex_proof-decode :
    (buffer_to_hex : Buffer → String) (tree : MerkleTree) (el : Buffer) {proof : List Buffer}
    → get_proof buffer_to_hex tree el ≡ ok proof
    → All IsBytes proof
    → (texts : List String) × (get_hex_proof buffer_to_hex tree el ≡ ok texts)
      × (map decode texts ≡ proof)
unfolding get_hex_proof
get_hex_proof-decode buffer_to_hex tree el {proof} e h =
    (map (λ b. with_prefix (to_hex b)) proof, rw e, decode_encoded proof h)

module _ (keccak256 : Buffer → Buffer)
    (keccak256-IsBytes : (b : Buffer) → IsBytes (keccak256 b)) where
  OptionBytes-combined_hash :
      (x : Buffer) (o : Option Buffer)
      → IsBytes x
      → OptionBytes (combined_hash keccak256 (some x) o)
  unfolding combined_hash
  OptionBytes-combined_hash x none h = h
  OptionBytes-combined_hash x (some y) h = keccak256-IsBytes _

  push-IsBytes :
      (o : Option Buffer) (l : List Buffer) → OptionBytes o → All IsBytes l → All IsBytes (push o l)
  push-IsBytes none l h hs = hs
  push-IsBytes (some x) l h hs = (h, hs)

  next_layer_from-IsBytes :
      (i : ℕ) (l : List Buffer) → All IsBytes l → All IsBytes (next_layer_from keccak256 i l)
  unfolding next_layer_from
  next_layer_from-IsBytes i [] h = tt
  next_layer_from-IsBytes i (x ∷ l) h =
      let later = next_layer_from-IsBytes (i + 1) l h.1 in
      if_intro (All IsBytes) (i % 2 == 0)
        (push-IsBytes _ _ (OptionBytes-combined_hash x (head? l) h.0) later) later

  layers_from-IsBytes :
      (l : List Buffer) (w : Acc Shorter l)
      → All IsBytes l
      → All (All IsBytes) (layers_from keccak256 l w)
  layers_from-IsBytes =
      layers_induction keccak256 (λ l ls. All IsBytes l → All (All IsBytes) ls)
        (λ l short h. (h, tt))
        (λ l v long ih h. (h, ih (unfold get_next_layer in next_layer_from-IsBytes 0 l h)))

  -- The proof of an element of a tree over bytes consists of bytes.
  pub proof-IsBytes :
      (l : List Buffer) (w : Acc Shorter l) (idx : ℕ)
      → All IsBytes l
      → All IsBytes (proof_from idx (layers_from keccak256 l w))
  proof-IsBytes l w idx h = proof_from-IsBytes idx _ (layers_from-IsBytes l w h)
