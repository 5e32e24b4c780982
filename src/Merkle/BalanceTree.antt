-- ===== src/Merkle/BalanceTree.antt =====
-- The class `BalanceTree` of utils/balance-tree.ts: the tree of the hashes of an airdrop's rows.
pub mod Verify
use bsc_alpaca_contract.Prelude.{
  ℕ, ◌+◌, String, Bool, false, List, [], ◌∷◌, Option, none, some, Result, ok, ◌>>=◌, codes_eq,
}
use bsc_alpaca_contract.Sort.Codes.{codes_ord}
use bsc_alpaca_contract.Merkle.Bytes.{Buffer, from_hex, without_prefix}
use bsc_alpaca_contract.Merkle.Tree
use bsc_alpaca_contract.Merkle.Tree.{MerkleTree}
use bsc_alpaca_contract.Merkle.Tree.Proof.{fold_proof}

-- One row of the airdrop.
pub record Balance : Type 0 where
  pub account : String
  pub amount : ℕ

-- What ethers and ethereumjs-util compute: `utils.solidityKeccak256` of a row as a hexadecimal
-- text, which throws for an account or an amount that is not of its type, `bufferToHex`, and
-- `keccak256`.
pub record Hashes : Type 0 where
  pub solidity_keccak256 : ℕ → String → ℕ → Result String
  pub buffer_to_hex : Buffer → String
  pub keccak256 : Buffer → Buffer

module _ (h : Hashes) where
  -- `Buffer.from(utils.solidityKeccak256(...).substr(2), 'hex')`
  unfoldable pub to_node : ℕ → String → ℕ → Result Buffer
  to_node index account amount = do
    hash ← h.solidity_keccak256 index account amount
    ok (from_hex (without_prefix hash))

  -- `balances.map(({ account, amount }, index) => BalanceTree.toNode(index, account, amount))`
  unfoldable pub nodes_from : ℕ → List Balance → Result (List Buffer)
  nodes_from index [] = ok []
  nodes_from index (b ∷ balances) =
      let rest = nodes_from (index + 1) balances in
      to_node index b.account b.amount >>= λ node. rest >>= λ nodes. ok (node ∷ nodes)

  -- the constructor
  unfoldable pub new : List Balance → Result MerkleTree
  new balances = nodes_from 0 balances >>= λ nodes. Tree.new h.buffer_to_hex h.keccak256 nodes

  -- `pair.equals(root)`
  abbrev pub equals : Option Buffer → Buffer → Bool
  equals none root = false
  equals (some pair) root = codes_eq pair root

  unfoldable pub verify_proof : ℕ → String → ℕ → List Buffer → Buffer → Result Bool
  verify_proof index account amount proof root = do
    pair ← to_node index account amount
    ok (equals (fold_proof h.keccak256 (some pair) proof) root)

  unfoldable pub get_hex_root : MerkleTree → Option String
  get_hex_root tree = elim (Tree.get_root tree) [
    | none ↦ none
    | some root ↦ some (h.buffer_to_hex root)
  ]

  unfoldable pub get_proof : MerkleTree → ℕ → String → ℕ → Result (List String)
  get_proof tree index account amount = do
    node ← to_node index account amount
    Tree.get_hex_proof h.buffer_to_hex tree node
