-- ===== src/Merkle/Tree/Proof.antt =====
-- `getProof` is complete: folding an element with its proof gives the root.
use mathlib.Core.WellFounded.{Acc}
use bsc_alpaca_contract.Prelude.{
  ℕ, zero, suc, ◌/◌, ◌<◌, ◌≡◌, refl, sym, ◌∙◌, List, [], ◌∷◌, Option, none, some, arith, length,
  get_elem?, Shorter,
}
use bsc_alpaca_contract.Merkle.Bytes.{Buffer}
use bsc_alpaca_contract.Merkle.Hash.{combined_hash, combined_hash-some}
use bsc_alpaca_contract.Merkle.Tree.{root_of, layers_from, proof_from}
use bsc_alpaca_contract.Merkle.Tree.Layer.{
  get_pair_element, get_next_layer, get_next_layer-at, length-get_next_layer,
}
use bsc_alpaca_contract.Merkle.Tree.Layers.{layers_induction, root_of-cons}

pub proof_from-cons :
    (idx : ℕ) (layer : List Buffer) (layers : List (List Buffer))
    → proof_from idx (layer ∷ layers) ≡ (elim (get_pair_element idx layer) [
      | none ↦ proof_from (idx / 2) layers
      | some pair ↦ pair ∷ proof_from (idx / 2) layers
    ])
unfolding proof_from
proof_from-cons idx layer layers = refl

module _ (keccak256 : Buffer → Buffer) where
  -- `for (const item of proof) pair = MerkleTree.combinedHash(pair, item)`
  unfoldable pub fold_proof : Option Buffer → List Buffer → Option Buffer
  fold_proof pair [] = pair
  fold_proof pair (item ∷ proof) = fold_proof (combined_hash keccak256 pair (some item)) proof

  fold_proof-step :
      (pair : Option Buffer) (neighbour : Option Buffer) (later : List Buffer)
      → fold_proof pair (elim neighbour [ none ↦ later | some p ↦ p ∷ later ])
        ≡ fold_proof (combined_hash keccak256 pair neighbour) later
  unfolding fold_proof combined_hash
  fold_proof-step none none later = refl
  fold_proof-step (some x) none later = refl
  fold_proof-step pair (some p) later = refl

  root_of-single :
      (l : List Buffer) (idx : ℕ) (el : Buffer)
      → ¬ (1 < length l)
      → get_elem? l idx ≡ some el
      → fold_proof (some el) (proof_from idx (l ∷ [])) ≡ root_of (l ∷ [])
  unfolding root_of proof_from get_pair_element fold_proof
  root_of-single [] idx el short h = cc
  root_of-single (x ∷ []) zero el short h = sym h
  root_of-single (x ∷ []) (suc idx) el short h = cc
  root_of-single (x ∷ y ∷ l) idx el short h = absurd (short (omega arith))

  -- The proof of the element at `idx` leads to the root.
  pub fold_proof-layers :
      (l : List Buffer) (w : Acc Shorter l) (idx : ℕ) (el : Buffer)
      → get_elem? l idx ≡ some el
      → fold_proof (some el) (proof_from idx (layers_from keccak256 l w))
        ≡ root_of (layers_from keccak256 l w)
  fold_proof-layers =
      layers_induction keccak256
        (λ l ls.
          (idx : ℕ) (el : Buffer)
          → get_elem? l idx ≡ some el
          → fold_proof (some el) (proof_from idx ls) ≡ root_of ls)
        (λ l short idx el h. root_of-single l idx el short h) step
    where
      step :
          (l : List Buffer) (v : Acc Shorter (get_next_layer keccak256 l))
          → 1 < length l
          → ((i : ℕ) (x : Buffer)
              → get_elem? (get_next_layer keccak256 l) i ≡ some x
              → fold_proof
                  (some x)
                  (proof_from i (layers_from keccak256 (get_next_layer keccak256 l) v))
                ≡ root_of (layers_from keccak256 (get_next_layer keccak256 l) v))
          → (idx : ℕ) (el : Buffer) → get_elem? l idx ≡ some el
          → fold_proof
              (some el)
              (proof_from idx (l ∷ layers_from keccak256 (get_next_layer keccak256 l) v))
            ≡ root_of (l ∷ layers_from keccak256 (get_next_layer keccak256 l) v)
      step l v long ih idx el h =
          let (x, e) = combined_hash-some keccak256 el (get_pair_element idx l) in
          rw (proof_from-cons idx l _, fold_proof-step, e, root_of-cons keccak256 l _ v)
            (ih (idx / 2) x (get_next_layer-at keccak256 l idx el h ∙ e))

  -- The last layer adds nothing to a proof, and any other layer one element at most.
  pub length-proof_from-lt :
      (l : List Buffer) (w : Acc Shorter l) (idx : ℕ)
      → idx < length l
      → length (proof_from idx (layers_from keccak256 l w)) < length (layers_from keccak256 l w)
  length-proof_from-lt =
      layers_induction keccak256
        (λ l ls. (idx : ℕ) → idx < length l → length (proof_from idx ls) < length ls)
        (λ l short idx h. single_layer l idx short h)
        (λ l v long ih idx h.
          let shorter = ih (idx / 2) (omega (arith, length-get_next_layer keccak256 l)) in
          rw (proof_from-cons idx l _) (one_more (get_pair_element idx l) _ (omega arith)))
    where
      single_layer :
          (l : List Buffer) (idx : ℕ)
          → ¬ (1 < length l)
          → idx < length l
          → length (proof_from idx (l ∷ [])) < 1
      single_layer [] idx short h = absurd (omega arith)
      single_layer (x ∷ []) zero short h = unfold proof_from get_pair_element in omega arith
      single_layer (x ∷ []) (suc idx) short h = absurd (omega arith)
      single_layer (x ∷ y ∷ l) idx short h = absurd (short (omega arith))

      one_more :
          (pair : Option Buffer) (later : List Buffer) {n : ℕ}
          → length later < n
          → length (elim pair [ none ↦ later | some p ↦ p ∷ later ]) < suc n
      one_more none later h = omega arith
      one_more (some p) later h = omega arith
