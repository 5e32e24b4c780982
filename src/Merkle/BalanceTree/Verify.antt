-- ===== src/Merkle/BalanceTree/Verify.antt =====
-- Every row of an airdrop verifies against the root of its tree.
use bsc_alpaca_contract.Prelude.{
  ℕ, zero, suc, ◌+◌, String, ◌≡◌, refl, true, List, [], ◌∷◌, map, some, arith, ok, codes_eq,
  codes_eq_iff, >>=-eq-ok, ok_injective, Bool-cases, inl, inr, get_elem?,
}
use bsc_alpaca_contract.Sort.{contains}
use bsc_alpaca_contract.Sort.Codes.{codes_ord}
use bsc_alpaca_contract.Merkle.Bytes.{Buffer, IsBytes, from_hex-IsBytes, without_prefix}
use bsc_alpaca_contract.Merkle.Tree
use bsc_alpaca_contract.Merkle.Tree.{MerkleTree}
use bsc_alpaca_contract.Merkle.Tree.Index.{Every, contains_at}
use bsc_alpaca_contract.Merkle.Tree.Build.{proof_complete, get_proof-IsBytes}
use bsc_alpaca_contract.Merkle.Tree.Hex.{decode, get_hex_proof-decode}
use bsc_alpaca_contract.Merkle.BalanceTree.{
  Balance, Hashes, to_node, nodes_from, new, verify_proof, get_proof,
}

-- What is relied on of the hash functions: they give bytes, and texts that tell buffers apart.
pub record IsSound (h : Hashes) : Type 0 where
  pub keccak256_bytes : (b : Buffer) → IsBytes (h.keccak256 b)
  pub hex_injective :
      (b c : Buffer) → IsBytes b → IsBytes c → h.buffer_to_hex b ≡ h.buffer_to_hex c → b ≡ c

module _ (h : Hashes) where
  to_node-IsBytes :
      (i : ℕ) (a : String) (n : ℕ) {node : Buffer} → to_node h i a n ≡ ok node → IsBytes node
  unfolding to_node
  to_node-IsBytes i a n made =
      let (hash, _, made₁) = >>=-eq-ok (h.solidity_keccak256 i a n) _ made in
      rw (← (ok_injective made₁)) (from_hex-IsBytes (without_prefix hash))

  nodes_from-nil : (k : ℕ) {nodes : List Buffer} → nodes_from h k [] ≡ ok nodes → [] ≡ nodes
  unfolding nodes_from
  nodes_from-nil k made = ok_injective made

  nodes_from-cons :
      (k : ℕ) (b : Balance) (balances : List Balance) {nodes : List Buffer}
      → nodes_from h k (b ∷ balances) ≡ ok nodes
      → (node : Buffer) × (rest : List Buffer) × (to_node h k b.account b.amount ≡ ok node)
        × (nodes_from h (k + 1) balances ≡ ok rest)
        × ((node ∷ rest) ≡ nodes)
  unfolding nodes_from
  nodes_from-cons k b balances made =
      let (node, here, made₁) = >>=-eq-ok (to_node h k b.account b.amount) _ made in
      let (rest, later, made₂) = >>=-eq-ok (nodes_from h (k + 1) balances) _ made₁ in
      (node, rest, here, later, ok_injective made₂)

  nodes_from-at :
      (k i : ℕ) (balances : List Balance) {b : Balance} {nodes : List Buffer}
      → nodes_from h k balances ≡ ok nodes
      → get_elem? balances i ≡ some b
      → (node : Buffer) × (to_node h (k + i) b.account b.amount ≡ ok node)
        × (get_elem? nodes i ≡ some node)
  nodes_from-at k i [] made e = cc
  nodes_from-at k zero (c ∷ balances) {b} made e =
      let (node, rest, here, _, split) = nodes_from-cons k c balances made in
      let p : c ≡ b = cc in
      let q : k + 0 ≡ k = omega arith in (node, rw (← p, q) here, rw (← split) refl)
  nodes_from-at k (suc i) (c ∷ balances) made e =
      let (_, rest, _, later, split) = nodes_from-cons k c balances made in
      let (node, here, at_i) = nodes_from-at (k + 1) i balances later e in
      let p : k + 1 + i ≡ k + suc i = omega arith in (node, rw p at here, rw (← split) at_i)

  nodes_from-IsBytes :
      (k : ℕ) (balances : List Balance) {nodes : List Buffer}
      → nodes_from h k balances ≡ ok nodes
      → Every IsBytes nodes
  unfolding contains
  nodes_from-IsBytes k [] made = rw (← (nodes_from-nil k made)) (λ x e. cc)
  nodes_from-IsBytes k (b ∷ balances) made =
      let (node, rest, here, later, split) = nodes_from-cons k b balances made in
      let bytes = to_node-IsBytes k b.account b.amount here in
      let rest_bytes = nodes_from-IsBytes (k + 1) balances later in
      rw (← split) (λ x e. elim (Bool-cases (codes_eq node x)) [
        | inl same ↦ rw ((codes_eq_iff node x).0 same) at bytes
        | inr other ↦ rest_bytes x (rw other at e)
      ])

  -- If the hash gives bytes and the texts tell buffers of bytes apart, and `toNode` throws for no
  -- row, then the tree of an airdrop with a row is built, it has a root and gives a proof of the row
  -- as hexadecimal texts, and `verifyProof` accepts the row with the decoded proof and the root.
  pub rows_verify :
      (balances : List Balance) (nodes : List Buffer) (i : ℕ) (b : Balance)
      → IsSound h
      → nodes_from h 0 balances ≡ ok nodes
      → get_elem? balances i ≡ some b
      → (tree : MerkleTree) × (texts : List String) × (root : Buffer) × (new h balances ≡ ok tree)
        × (get_proof h tree i b.account b.amount ≡ ok texts)
        × (Tree.get_root tree ≡ some root)
        × (verify_proof h i b.account b.amount (map decode texts) root ≡ ok true)
  unfolding new get_proof verify_proof
  rows_verify balances nodes i b sound hashed at_i =
      let (el, here, at_node) = nodes_from-at 0 i balances hashed at_i in
      let p : 0 + i ≡ i = omega arith in
      let hash : to_node h i b.account b.amount ≡ ok el = rw p at here in
      let bytes = nodes_from-IsBytes 0 balances hashed in
      let given : contains el nodes ≡ true = contains_at el nodes i at_node in
      let (tree, proof, root, made, found, top, folds) =
        proof_complete h.buffer_to_hex h.keccak256 sound.hex_injective nodes el bytes given in
      let proof_bytes =
        get_proof-IsBytes h.buffer_to_hex h.keccak256 sound.hex_injective nodes el
          sound.keccak256_bytes bytes given made found in
      let (texts, hex, back) = get_hex_proof-decode h.buffer_to_hex tree el found proof_bytes in
      let accepted : codes_eq root root ≡ true = (codes_eq_iff root root).1 refl in
      (tree, texts, root, rw hashed made, rw hash hex, top, rw (hash, back, folds, accepted) refl)
