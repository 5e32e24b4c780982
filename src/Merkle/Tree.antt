-- ===== src/Merkle/Tree.antt =====
-- The class `MerkleTree` of utils/merkle-tree.ts.
pub mod Layer
pub mod Layers
pub mod Proof
pub mod Index
pub mod Build
pub mod Hex
use mathlib.Core.List.{get_last?}
use mathlib.Core.WellFounded.{Acc, WellFounded}
use mathlib.Core.Logic.{dite}
use bsc_alpaca_contract.Prelude.{
  ℕ, zero, suc, ◌+◌, ◌/◌, ◌<◌, String, ◌≡◌, List, [], ◌∷◌, head?, map, Option, none, some, arith,
  dec_lt, Dict, lookup, insert, Result, ok, throw, ◌>>=◌, length, if◌then◌else◌, Shorter,
  Shorter-wf,
}
use bsc_alpaca_contract.Sort.{sort, dedup}
use bsc_alpaca_contract.Sort.Codes.{codes_ord}
use bsc_alpaca_contract.Merkle.Bytes.{Buffer, to_hex, with_prefix}
use bsc_alpaca_contract.Merkle.Hash.{combined_hash}
use Layer.{get_pair_element, get_next_layer, length-get_next_layer}

pub record MerkleTree : Type 0 where
  pub elements : List Buffer
  pub buffer_element_position_index : Dict ℕ
  pub layers : List (List Buffer)

-- `layers[layers.length - 1]`
unfoldable pub last_layer : List (List Buffer) → List Buffer
last_layer [] = []
last_layer (layer ∷ []) = layer
last_layer (layer ∷ next ∷ rest) = last_layer (next ∷ rest)

-- `layers[layers.length - 1][0]`
unfoldable pub root_of : List (List Buffer) → Option Buffer
unfolding last_layer
root_of layers = head? (last_layer layers)

unfoldable pub get_root : MerkleTree → Option Buffer
get_root tree = root_of tree.layers

-- The rounds of `reduce` in `getProof`, over the layers that are left.
unfoldable pub proof_from : ℕ → List (List Buffer) → List Buffer
proof_from idx [] = []
proof_from idx (layer ∷ layers) =
    let later = proof_from (idx / 2) layers in
    elim (get_pair_element idx layer) [ none ↦ later | some pair ↦ pair ∷ later ]

-- Each layer but the last is followed by the next one.
module _ (keccak256 : Buffer → Buffer) where
  pub Shorter-next : (l : List Buffer) → 1 < length l → Shorter (get_next_layer keccak256 l) l
  Shorter-next l long = omega (arith, length-get_next_layer keccak256 l)

  -- `while (layers[layers.length - 1].length > 1)`
  unfoldable pub layers_from : (l : List Buffer) → Acc Shorter l → List (List Buffer)
  unfolding dec_lt
  layers_from l (Acc.intro _ below) =
      dite (dec_lt 1 (length l))
        (λ long. l ∷ layers_from (get_next_layer keccak256 l) (below _ (Shorter-next l long)))
        (λ _. l ∷ [])

  unfoldable pub get_layers : List Buffer → Result (List (List Buffer))
  unfolding layers_from Shorter-wf
  get_layers [] = throw "empty tree"
  get_layers (el ∷ els) = ok (layers_from (el ∷ els) (Shorter-wf.apply (el ∷ els)))

-- The hexadecimal text of ethereumjs-util keys the index.
module _ (buffer_to_hex : Buffer → String) where
  -- the rounds of `reduce` from `index` on
  unfoldable pub position_index : ℕ → List Buffer → Dict ℕ → Dict ℕ
  position_index index [] memo = memo
  position_index index (el ∷ els) memo =
      position_index (index + 1) els (insert (buffer_to_hex el) index memo)

  unfoldable pub get_proof : MerkleTree → Buffer → Result (List Buffer)
  get_proof tree el = elim (lookup (buffer_to_hex el) tree.buffer_element_position_index) [
    | none ↦ throw "Element does not exist in Merkle tree"
    | some idx ↦ ok (proof_from idx tree.layers)
  ]

  -- `bufArrToHexArr`; every element of the array is a buffer
  unfoldable pub get_hex_proof : MerkleTree → Buffer → Result (List String)
  get_hex_proof tree el = do proof ← get_proof tree el; ok (map (λ b. with_prefix (to_hex b)) proof)

  module _ (keccak256 : Buffer → Buffer) where
    -- the constructor
    unfoldable pub new : List Buffer → Result MerkleTree
    new given =
        let kept = dedup (sort given) in
        get_layers keccak256 kept >>= λ ls. ok (record {
          elements = kept;
          buffer_element_position_index = position_index 0 kept [];
          layers = ls;
        })
