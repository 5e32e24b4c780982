-- ===== src/Merkle/BalanceMap/Total.antt =====
-- The published total is the sum of the amounts in the tree.
use bsc_alpaca_contract.Prelude.{
  ℕ, ◌+◌, String, ◌≡◌, refl, ap, sym, ◌∙◌, List, [], ◌∷◌, arith, ok, >>=-eq-ok, ok_injective, Dict,
  lookup, keys, some,
}
use bsc_alpaca_contract.Sort.{sort}
use bsc_alpaca_contract.Sort.Codes.{text_ord}
use bsc_alpaca_contract.Merkle.Tree.{MerkleTree}
use bsc_alpaca_contract.Merkle.BalanceTree
use bsc_alpaca_contract.Merkle.BalanceTree.{Balance}
use bsc_alpaca_contract.Merkle.BalanceMap.{
  Ethers, Balances, Entry, MerkleDistributorInfo, found, in_new_format, data_by_address, rows_of,
  claims_from, token_total, parse_balance_map,
}
use bsc_alpaca_contract.Merkle.BalanceMap.Claims.{rows_of-cons, found-eq-ok}

-- The amounts of the rows, added up.
unfoldable pub sum_of_amounts : List Balance → ℕ
sum_of_amounts [] = 0
sum_of_amounts (row ∷ rows) = row.amount + sum_of_amounts rows

module _ (e : Ethers) (by_address : Dict Entry) where
  rows_of-nil : {rows : List Balance} → rows_of e by_address [] ≡ ok rows → [] ≡ rows
  unfolding rows_of
  rows_of-nil h = ok_injective h

  token_total-cons :
      (memo : ℕ) (key : String) (rest : List String) {entry : Entry}
      → lookup key by_address ≡ some entry
      → token_total e by_address memo (key ∷ rest)
        ≡ token_total e by_address (memo + entry.amount) rest
  unfolding token_total
  token_total-cons memo key rest at_key = rw at_key refl

  token_total-nil :
      (memo : ℕ) {total : ℕ} → token_total e by_address memo [] ≡ ok total → memo ≡ total
  unfolding token_total
  token_total-nil memo h = ok_injective h

  token_total-sum :
      (memo : ℕ) (addresses : List String) (rows : List Balance) {total : ℕ}
      → rows_of e by_address addresses ≡ ok rows
      → token_total e by_address memo addresses ≡ ok total
      → total ≡ memo + sum_of_amounts rows
  unfolding sum_of_amounts
  token_total-sum memo [] rows from_rows added =
      let p = rows_of-nil from_rows in let q = token_total-nil memo added in rw (← p) (omega arith)
  token_total-sum memo (address ∷ addresses) rows from_rows added =
      let (entry, rest, at_key, from_rest, split) =
        rows_of-cons e by_address address addresses from_rows in
      let later = sym (token_total-cons memo address addresses at_key) ∙ added in
      let total = token_total-sum (memo + entry.amount) addresses rest from_rest later in
      rw split (omega arith)

-- If `parseBalanceMap` succeeds, the published total is the text of the sum of the amounts of the
-- rows that a tree was built from, and the published root is the root of that tree.
pub parse_balance_map-total :
    (e : Ethers) (balances : Balances) (info : MerkleDistributorInfo)
    → parse_balance_map e balances ≡ ok info
    → (rows : List Balance) × (tree : MerkleTree) × (BalanceTree.new e.hashes rows ≡ ok tree)
      × (BalanceTree.get_hex_root e.hashes tree ≡ some info.merkle_root)
      × (info.token_total ≡ e.to_hex_string (sum_of_amounts rows))
unfolding parse_balance_map
parse_balance_map-total e balances info made =
    let (by_address, _, made₁) = >>=-eq-ok (data_by_address e [] (in_new_format balances)) _ made in
    let addresses = sort (keys by_address) in
    let (rows, from_rows, made₂) = >>=-eq-ok (rows_of e by_address addresses) _ made₁ in
    let (tree, built, made₃) = >>=-eq-ok (BalanceTree.new e.hashes rows) _ made₂ in
    let (claims, _, made₄) = >>=-eq-ok (claims_from e by_address tree 0 addresses []) _ made₃ in
    let (total, added, made₅) = >>=-eq-ok (token_total e by_address 0 addresses) _ made₄ in
    let (root, top, made₆) = >>=-eq-ok (found (BalanceTree.get_hex_root e.hashes tree)) _ made₅ in
    let p = ok_injective made₆ in
    let q : total ≡ sum_of_amounts rows =
      token_total-sum e by_address 0 addresses rows from_rows added ∙ omega arith in
    (
      rows,
      tree,
      built,
      found-eq-ok _ top ∙ ap (λ (i : MerkleDistributorInfo). some i.merkle_root) p,
      sym (ap (λ (i : MerkleDistributorInfo). i.token_total) p) ∙ ap e.to_hex_string q,
    )
