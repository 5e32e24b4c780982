-- ===== src/Merkle/Tree/Build.antt =====
-- The constructor of `MerkleTree`, with `getRoot` and `getProof` of what it builds.
use bsc_alpaca_contract.Prelude.{
  ℕ, zero, suc, ◌^◌, ◌≤◌, ◌<◌, String, ◌≡◌, refl, ap, sym, ◌∙◌, ◌⊎◌, inl, inr, true, false, List,
  [], ◌∷◌, head?, none, some, arith, ok, throw, ok_injective, ok≢throw, length, get_elem?, lookup,
  Shorter-wf, All,
}
use bsc_alpaca_contract.Sort.{sort, dedup, contains}
use bsc_alpaca_contract.Sort.Codes.{codes_ord}
use bsc_alpaca_contract.Sort.Ascending.{
  SameElements, dedup-sort-IsAscending, contains-dedup-sort, dedup-sort_unique,
  length-dedup-sort-le,
}
use bsc_alpaca_contract.Merkle.Bytes.{Buffer, IsBytes}
use bsc_alpaca_contract.Merkle.Tree.{
  MerkleTree, last_layer, root_of, get_root, proof_from, layers_from, get_layers, position_index,
  get_proof, new,
}
use bsc_alpaca_contract.Merkle.Tree.Layers.{
  get_layers-pos, length-last_layer, length-layers_from-le,
}
use bsc_alpaca_contract.Merkle.Tree.Proof.{fold_proof, fold_proof-layers, length-proof_from-lt}
use bsc_alpaca_contract.Merkle.Tree.Hex.{Every-All, proof-IsBytes}
use bsc_alpaca_contract.Merkle.Tree.Index.{
  Every, position_of, position_index-at, position_index-absent,
}

abbrev kept : List Buffer → List Buffer
kept given = dedup (sort given)

get_elem?-lt : (l : List Buffer) (j : ℕ) {b : Buffer} → get_elem? l j ≡ some b → j < length l
get_elem?-lt [] j h = cc
get_elem?-lt (x ∷ l) zero h = omega arith
get_elem?-lt (x ∷ l) (suc j) h = omega (arith, get_elem?-lt l j h)

single : (l : List Buffer) → length l ≡ 1 → (b : Buffer) × (head? l ≡ some b)
single [] h = absurd (omega arith)
single (b ∷ l) h = (b, refl)

module _ (buffer_to_hex : Buffer → String) (keccak256 : Buffer → Buffer) where
  abbrev built : List Buffer → MerkleTree
  built l = record {
    elements = l;
    buffer_element_position_index = position_index buffer_to_hex 0 l [];
    layers = layers_from keccak256 l (Shorter-wf.apply l);
  }

  new-built :
      (given : List Buffer)
      → 0 < length (kept given)
      → new buffer_to_hex keccak256 given ≡ ok (built (kept given))
  unfolding new
  new-built given h = rw (get_layers-pos keccak256 (kept given) h)

  -- The constructor throws on an empty array.
  pub new_empty : new buffer_to_hex keccak256 [] ≡ throw "empty tree"
  unfolding new get_layers sort dedup
  new_empty = refl

  get_root-built :
      (l : List Buffer) → 0 < length l → (root : Buffer) × (get_root (built l) ≡ some root)
  unfolding get_root root_of
  get_root-built l h =
      single (last_layer (layers_from keccak256 l (Shorter-wf.apply l)))
        (length-last_layer keccak256 l (Shorter-wf.apply l) h)

  -- Two arrays with the same elements, in any order and any number of times, give the same result
  -- of the constructor.
  pub new_order_irrelevant :
      (xs ys : List Buffer)
      → SameElements xs ys
      → new buffer_to_hex keccak256 xs ≡ new buffer_to_hex keccak256 ys
  unfolding new
  new_order_irrelevant xs ys e = rw (dedup-sort_unique xs ys e)

  kept-cases : (l : List Buffer) → (0 < length l) ⊎ (get_layers keccak256 l ≡ throw "empty tree")
  unfolding get_layers
  kept-cases [] = inr refl
  kept-cases (x ∷ l) = inl (omega arith)

  new-throw :
      (given : List Buffer)
      → get_layers keccak256 (kept given) ≡ throw "empty tree"
      → new buffer_to_hex keccak256 given ≡ throw "empty tree"
  unfolding new
  new-throw given e = rw e

  -- Only the tree of the elements that are kept is built.
  new-eq-ok :
      (given : List Buffer) {tree : MerkleTree}
      → new buffer_to_hex keccak256 given ≡ ok tree
      → tree ≡ built (kept given)
  new-eq-ok given made = elim (kept-cases (kept given)) [
    | inl long ↦ ok_injective (sym made ∙ new-built given long)
    | inr e ↦ absurd (ok≢throw (sym made ∙ new-throw given e))
  ]

  get_proof-found :
      (tree : MerkleTree) (el : Buffer) (idx : ℕ)
      → lookup (buffer_to_hex el) tree.buffer_element_position_index ≡ some idx
      → get_proof buffer_to_hex tree el ≡ ok (proof_from idx tree.layers)
  unfolding get_proof
  get_proof-found tree el idx h = rw (h, get_proof)

  get_proof-missing :
      (tree : MerkleTree) (el : Buffer)
      → lookup (buffer_to_hex el) tree.buffer_element_position_index ≡ none
      → get_proof buffer_to_hex tree el ≡ throw "Element does not exist in Merkle tree"
  unfolding get_proof
  get_proof-missing tree el h = rw (h, get_proof)

  module _
      (hex_injective : (b c : Buffer)
        → IsBytes b
        → IsBytes c
        → buffer_to_hex b ≡ buffer_to_hex c
        → b ≡ c) where
    kept-IsBytes : (given : List Buffer) → Every IsBytes given → Every IsBytes (kept given)
    kept-IsBytes given bytes b h = bytes b (rw contains-dedup-sort at h)

    -- The position of a given element, and its proof.
    get_proof-at :
        (given : List Buffer) (el : Buffer)
        → Every IsBytes given
        → contains el given ≡ true
        → (j : ℕ) × (get_elem? (kept given) j ≡ some el)
          × (get_proof buffer_to_hex (built (kept given)) el
              ≡ ok (proof_from j (built (kept given)).layers))
    get_proof-at given el bytes h =
        let (j, at_j) = position_of el (kept given) (rw contains-dedup-sort h) in
        (
          j,
          at_j,
          get_proof-found (built (kept given)) el j (
              position_index-at buffer_to_hex hex_injective 0 j el (kept given) []
                (kept-IsBytes given bytes) (dedup-sort-IsAscending given) at_j
              ∙ ap some (omega arith)),
        )

    -- If the texts tell buffers of bytes apart and the given buffers consist of bytes, then the
    -- constructor succeeds on an array with the element, `getProof` gives a proof of the element,
    -- and the element combined with the proof's buffers in turn is the tree's root.
    pub proof_complete :
        (given : List Buffer) (el : Buffer)
        → Every IsBytes given
        → contains el given ≡ true
        → (tree : MerkleTree) × (proof : List Buffer) × (root : Buffer) × (new buffer_to_hex
              keccak256 given
            ≡ ok tree)
          × (get_proof buffer_to_hex tree el ≡ ok proof)
          × (get_root tree ≡ some root)
          × (fold_proof keccak256 (some el) proof ≡ some root)
    proof_complete given el bytes h =
        let (j, at_j, found) = get_proof-at given el bytes h in
        let long : 0 < length (kept given) = omega (arith, get_elem?-lt (kept given) j at_j) in
        let (root, top) = get_root-built (kept given) long in
        (
          built (kept given),
          proof_from j (built (kept given)).layers,
          root,
          new-built given long,
          found,
          top,
          fold_proof-layers keccak256 (kept given) (Shorter-wf.apply (kept given)) j el at_j
              ∙ unfold get_root in top,
        )

    -- If the texts tell buffers of bytes apart and all buffers consist of bytes, then `getProof`
    -- of the tree of an array throws for an element that is not in the array.
    pub proof_absent :
        (given : List Buffer) (el : Buffer) {tree : MerkleTree}
        → Every IsBytes given
        → IsBytes el
        → contains el given ≡ false
        → new buffer_to_hex keccak256 given ≡ ok tree
        → get_proof buffer_to_hex tree el ≡ throw "Element does not exist in Merkle tree"
    proof_absent given el bytes el_bytes absent made = rw (new-eq-ok given made) (
        get_proof-missing (built (kept given)) el (
          position_index-absent buffer_to_hex hex_injective el (kept given) el_bytes
            (kept-IsBytes given bytes) (rw contains-dedup-sort absent)))

    -- If the texts tell buffers of bytes apart, the given buffers consist of bytes, and at most
    -- `2 ^ k` are given, then a proof of one of them has at most `k` buffers.
    pub length-get_proof-le :
        (given : List Buffer) (el : Buffer) (k : ℕ) {tree : MerkleTree} {proof : List Buffer}
        → length given ≤ 2 ^ k
        → Every IsBytes given
        → contains el given ≡ true
        → new buffer_to_hex keccak256 given ≡ ok tree
        → get_proof buffer_to_hex tree el ≡ ok proof
        → length proof ≤ k
    length-get_proof-le given el k small bytes h made found =
        let (j, at_j, found_j) = get_proof-at given el bytes h in
        let l = kept given in
        let w = Shorter-wf.apply l in
        let tree_l = new-eq-ok given made in
        let proof_j = ok_injective (sym (rw tree_l at found) ∙ found_j) in
        let short = length-proof_from-lt keccak256 l w j (get_elem?-lt l j at_j) in
        let few = length-dedup-sort-le given in
        let shallow = length-layers_from-le keccak256 l w k (omega arith) in
        rw proof_j (omega arith)

    -- If the texts tell buffers of bytes apart and the hash and the given buffers consist of bytes,
    -- then the proof of a given buffer consists of bytes.
    pub get_proof-IsBytes :
        (given : List Buffer) (el : Buffer) {tree : MerkleTree} {proof : List Buffer}
        → ((b : Buffer) → IsBytes (keccak256 b))
        → Every IsBytes given
        → contains el given ≡ true
        → new buffer_to_hex keccak256 given ≡ ok tree
        → get_proof buffer_to_hex tree el ≡ ok proof
        → All IsBytes proof
    get_proof-IsBytes given el hash bytes h made found =
        let (j, at_j, found_j) = get_proof-at given el bytes h in
        let l = kept given in
        let tree_l = new-eq-ok given made in
        let proof_j = ok_injective (sym (rw tree_l at found) ∙ found_j) in
        rw proof_j (
          proof-IsBytes keccak256 hash l (Shorter-wf.apply l) j
            (Every-All l (kept-IsBytes given bytes)))
