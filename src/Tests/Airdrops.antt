-- ===== src/Tests/Airdrops.antt =====
-- An airdrop over small functions in place of those of ethers.
use bsc_alpaca_contract.Prelude.{
  ℕ, String, true, false, not, List, [], ◌∷◌, map, none, some, ◌≡◌, refl, ok, lookup, insert,
  Shorter-wf, dec_lt, ◌===◌, codes_eq,
}
use mathlib.Core.List.{flatten}
use bsc_alpaca_contract.Sort.{sort, dedup, dedup_from, insert_sorted}
use bsc_alpaca_contract.Sort.Codes.{codes_ord, text_ord, less_codes}
use bsc_alpaca_contract.Merkle.Bytes.{Buffer, hex_char, to_hex, from_hex, with_prefix}
use bsc_alpaca_contract.Merkle.Hash.{combined_hash, sort_and_concat}
use bsc_alpaca_contract.Merkle.Tree
use bsc_alpaca_contract.Merkle.Tree.Layer.{
  get_next_layer, get_pair_element, next_layer_from, pair_index,
}
use bsc_alpaca_contract.Merkle.Tree.{MerkleTree}
use bsc_alpaca_contract.Merkle.Tree.Hex.{decode}
use bsc_alpaca_contract.Merkle.BalanceTree
use bsc_alpaca_contract.Merkle.BalanceTree.{Balance, Hashes, verify_proof}
use bsc_alpaca_contract.Merkle.BalanceTree.Verify.{IsSound, rows_verify}
use bsc_alpaca_contract.Merkle.BalanceMap.Valid.{IsValidEntry, data_by_address-valid}
use bsc_alpaca_contract.Merkle.BalanceMap.{
  Entry, NewFormat, BigNumber, Ethers, Balances, MerkleDistributorInfo, Claim, in_new_format,
  flags_of, add_row, data_by_address, rows_of, claims_from, token_total, parse_balance_map,
}
use bsc_alpaca_contract.Merkle.BalanceMap.Claims.{claims_verify}
use bsc_alpaca_contract.Merkle.BalanceMap.Total.{sum_of_amounts, parse_balance_map-total}
use bsc_alpaca_contract.Tests.Trees.{
  sum, toy_hex, toy_keccak, toy_keccak-IsBytes, toy_hex-injective,
}

abbrev toy_hashes : Hashes
toy_hashes = record {
  solidity_keccak256 = λ index account amount. ok (with_prefix (to_hex (index ∷ amount ∷ [])));
  buffer_to_hex = toy_hex;
  keccak256 = toy_keccak;
}

toy_hashes-IsSound : IsSound toy_hashes
toy_hashes-IsSound = record {
  keccak256_bytes = toy_keccak-IsBytes;
  hex_injective = toy_hex-injective;
}

abbrev toy_balances : List Balance
toy_balances =
    record { account = "0xaa"; amount = 9 } ∷ record { account = "0xbb"; amount = 4 } ∷ []

toy_nodes : (nodes : List Buffer) × (BalanceTree.nodes_from toy_hashes 0 toy_balances ≡ ok nodes)
unfolding BalanceTree.nodes_from BalanceTree.to_node
toy_nodes = (_, refl)

rows_verify_example :
    (tree : MerkleTree) × (texts : List String) × (root : Buffer) × (BalanceTree.new toy_hashes
        toy_balances
      ≡ ok tree)
    × (BalanceTree.get_proof toy_hashes tree 1 "0xbb" 4 ≡ ok texts)
    × (Tree.get_root tree ≡ some root)
    × (verify_proof toy_hashes 1 "0xbb" 4 (map decode texts) root ≡ ok true)
rows_verify_example =
    rows_verify toy_hashes toy_balances toy_nodes.0 1 (record { account = "0xbb"; amount = 4 })
      toy_hashes-IsSound toy_nodes.1 refl

abbrev toy_ethers : Ethers
toy_ethers = record {
  is_address = λ s. not (s === "");
  get_address = λ s. s;
  big_number_from = λ s. ok (BigNumber.positive 4);
  to_hex_string = λ n. with_prefix (to_hex (n ∷ []));
  hashes = toy_hashes;
}

abbrev toy_rows : Balances
toy_rows = Balances.new_format (
    record { address = "0xbb"; earnings = "0x05"; reasons = "" }
    ∷ record { address = "0xaa"; earnings = "0x05"; reasons = "lp,user" }
    ∷ [])

abbrev toy_claim : Claim
toy_claim = record {
  index = 0;
  amount = "0x05";
  proof = "0x0105" ∷ [];
  flags = some (record { is_socks = false; is_lp = true; is_user = true });
}

abbrev toy_info : MerkleDistributorInfo
toy_info = record {
  merkle_root = "0x0b";
  token_total = "0x0a";
  claims =
      ("0xaa", toy_claim)
      ∷ ("0xbb", record { index = 1; amount = "0x05"; proof = "0x0005" ∷ []; flags = none })
      ∷ [];
}

toy_rows-parsed : parse_balance_map toy_ethers toy_rows ≡ ok toy_info
unfolding parse_balance_map data_by_address in_new_format add_row lookup insert rows_of claims_from
    flags_of token_total sort dedup dedup_from insert_sorted less_codes BalanceTree.new
    BalanceTree.nodes_from BalanceTree.to_node BalanceTree.get_hex_root BalanceTree.get_proof
    Tree.new Tree.get_layers Tree.get_hex_proof Tree.get_proof Tree.get_root Tree.last_layer
    Tree.layers_from Tree.position_index Tree.proof_from Tree.root_of from_hex to_hex hex_char
    combined_hash sort_and_concat get_next_layer get_pair_element next_layer_from pair_index
    Shorter-wf codes_eq dec_lt toy_keccak sum flatten
toy_rows-parsed = refl

toy_claim-there : lookup "0xaa" toy_info.claims ≡ some toy_claim
unfolding lookup
toy_claim-there = refl

claims_verify_example :
    (amount : ℕ) × (root : Buffer) × (toy_claim.amount ≡ toy_ethers.to_hex_string amount)
    × (toy_info.merkle_root ≡ toy_hex root)
    × (verify_proof toy_hashes 0 "0xaa" amount (map decode toy_claim.proof) root ≡ ok true)
claims_verify_example =
    claims_verify toy_ethers toy_rows toy_info "0xaa" toy_claim toy_hashes-IsSound toy_rows-parsed
      toy_claim-there

parse_balance_map-total_example :
    (rows : List Balance) × (tree : MerkleTree) × (BalanceTree.new toy_hashes rows ≡ ok tree)
    × (BalanceTree.get_hex_root toy_hashes tree ≡ some toy_info.merkle_root)
    × (toy_info.token_total ≡ toy_ethers.to_hex_string (sum_of_amounts rows))
parse_balance_map-total_example =
    parse_balance_map-total toy_ethers toy_rows toy_info toy_rows-parsed

abbrev toy_row : List NewFormat
toy_row = record { address = "0xbb"; earnings = "0x05"; reasons = "" } ∷ []

abbrev toy_entry : Entry
toy_entry = record { amount = 5; flags = none }

toy_row-gathered : data_by_address toy_ethers [] toy_row ≡ ok (("0xbb", toy_entry) ∷ [])
unfolding data_by_address add_row lookup insert flags_of
toy_row-gathered = refl

toy_entry-there : lookup "0xbb" (("0xbb", toy_entry) ∷ []) ≡ some toy_entry
unfolding lookup
toy_entry-there = refl

data_by_address-valid_example : IsValidEntry toy_ethers "0xbb" toy_entry
data_by_address-valid_example =
    data_by_address-valid toy_ethers toy_row (("0xbb", toy_entry) ∷ []) "0xbb" toy_entry
      toy_row-gathered toy_entry-there
