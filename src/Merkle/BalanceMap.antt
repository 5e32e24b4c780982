-- ===== src/Merkle/BalanceMap.antt =====
-- `parseBalanceMap` of utils/parse-balance-map.ts.
pub mod Claims
pub mod Total
pub mod Valid
use Prim.Native.String.{◌++◌ as str_append}
use bsc_alpaca_contract.Prelude.{
  ℕ, zero, suc, ◌+◌, ◌/◌, ◌%◌, String, Bool, true, false, List, [], ◌∷◌, Option, none, some, Result,
  ok, throw, ◌>>=◌, ◌>>◌, guard, ◌===◌, ltb, includes, Dict, lookup, insert, keys, if◌then◌else◌,
  map,
}
use bsc_alpaca_contract.Sort.{sort}
use bsc_alpaca_contract.Sort.Codes.{text_ord}
use bsc_alpaca_contract.Merkle.Bytes.{hex_char, with_prefix}
use bsc_alpaca_contract.Merkle.Tree.{MerkleTree}
use bsc_alpaca_contract.Merkle.BalanceTree
use bsc_alpaca_contract.Merkle.BalanceTree.{Balance, Hashes}

-- The sign of a `BigNumber`, and its absolute value if it is positive.
pub data BigNumber : Type 0 where
  positive : ℕ → BigNumber
  not_positive : BigNumber

-- What ethers does with addresses and numbers. `positive n` stands for the number `n + 1`.
pub record Ethers : Type 0 where
  pub is_address : String → Bool
  pub get_address : String → String
  pub big_number_from : String → Result BigNumber
  pub to_hex_string : ℕ → String
  pub hashes : Hashes

-- `number | string`
pub data Earnings : Type 0 where
  number : ℕ → Earnings
  text : String → Earnings

pub record NewFormat : Type 0 where
  pub address : String
  pub earnings : String
  pub reasons : String

-- `OldFormat | NewFormat[]`
pub data Balances : Type 0 where
  old_format : Dict Earnings → Balances
  new_format : List NewFormat → Balances

pub record Flags : Type 0 where
  pub is_socks : Bool
  pub is_lp : Bool
  pub is_user : Bool

-- A value of `dataByAddress`.
pub record Entry : Type 0 where
  pub amount : ℕ
  pub flags : Option Flags

pub record Claim : Type 0 where
  pub index : ℕ
  pub amount : String
  pub proof : List String
  pub flags : Option Flags

pub record MerkleDistributorInfo : Type 0 where
  pub merkle_root : String
  pub token_total : String
  pub claims : Dict Claim

-- `n.toString(16)`: the digits from the last on, in at most `n` divisions
hex_digits : ℕ → ℕ → String → String
hex_digits zero n tail = tail
hex_digits (suc fuel) n tail =
    let more = hex_digits fuel (n / 16) (String.◌∷◌ (hex_char (n % 16)) tail) in
    if ltb n 16 then String.◌∷◌ (hex_char n) tail else more

-- `balances[account].toString(16)`; a text ignores the radix
to_string_16 : Earnings → String
to_string_16 (number n) = hex_digits (suc n) n ""
to_string_16 (text s) = s

from_accounts : Dict Earnings → List NewFormat
from_accounts [] = []
from_accounts ((account, earned) ∷ rest) =
    record { address = account; earnings = with_prefix (to_string_16 earned); reasons = "" }
    ∷ from_accounts rest

unfoldable pub in_new_format : Balances → List NewFormat
unfolding from_accounts to_string_16 hex_digits hex_char
in_new_format (new_format rows) = rows
in_new_format (old_format accounts) = from_accounts accounts

-- `reasons === '' ? {} : { flags }`
unfoldable pub flags_of : String → Option Flags
flags_of reasons =
    if reasons === ""
    then none
    else some (record {
      is_socks = includes reasons "socks";
      is_lp = includes reasons "lp";
      is_user = includes reasons "user";
    })

abbrev is_unset {ℓ} : {A : Type ℓ} → Option A → Bool
is_unset none = true
is_unset (some _) = false

-- `if (parsedNum.lte(0)) throw new Error(message)`
abbrev require_positive : String → BigNumber → Result ℕ
require_positive message (positive n) = ok (n + 1)
require_positive message not_positive = throw message

-- the value of a key that is there
abbrev found {ℓ} : {A : Type ℓ} → Option A → Result A
found none = throw "TypeError"
found (some a) = ok a

module _ (e : Ethers) where
  -- one round of the `reduce` that builds `dataByAddress`
  unfoldable pub add_row : Dict Entry → NewFormat → Result (Dict Entry)
  add_row memo row = do
    guard (e.is_address row.address) (str_append "Found invalid address: " row.address)
    let parsed = e.get_address row.address
    guard (is_unset (lookup parsed memo)) (str_append "Duplicate address: " parsed)
    parsed_num ← e.big_number_from row.earnings
    amount ← require_positive (str_append "Invalid amount for account: " row.address) parsed_num
    ok (insert parsed (record { amount = amount; flags = flags_of row.reasons }) memo)

  unfoldable pub data_by_address : Dict Entry → List NewFormat → Result (Dict Entry)
  data_by_address memo [] = ok memo
  data_by_address memo (row ∷ rows) = add_row memo row >>= λ next. data_by_address next rows

  -- `sortedAddresses.map((address) => ({ account: address, amount: dataByAddress[address].amount }))`
  unfoldable pub rows_of : Dict Entry → List String → Result (List Balance)
  rows_of by_address [] = ok []
  rows_of by_address (address ∷ addresses) =
      let rest = rows_of by_address addresses in
      found (lookup address by_address) >>= λ entry.
      rest >>= λ rows. ok (record { account = address; amount = entry.amount } ∷ rows)

  -- the rounds of the `reduce` that builds `claims`, from `index` on
  unfoldable pub claims_from :
      Dict Entry → MerkleTree → ℕ → List String → Dict Claim → Result (Dict Claim)
  claims_from by_address tree index [] memo = ok memo
  claims_from by_address tree index (address ∷ addresses) memo = do
    entry ← found (lookup address by_address)
    proof ← BalanceTree.get_proof e.hashes tree index address entry.amount
    claims_from by_address tree (index + 1) addresses (
        insert address
          (record {
            index = index;
            amount = e.to_hex_string entry.amount;
            proof = proof;
            flags = entry.flags;
          })
          memo)

  -- the `reduce` that adds the amounts up
  unfoldable pub token_total : Dict Entry → ℕ → List String → Result ℕ
  token_total by_address memo [] = ok memo
  token_total by_address memo (key ∷ rest) = do
    entry ← found (lookup key by_address)
    token_total by_address (memo + entry.amount) rest

  unfoldable pub parse_balance_map : Balances → Result MerkleDistributorInfo
  parse_balance_map balances = do
    by_address ← data_by_address [] (in_new_format balances)
    let sorted_addresses = sort (keys by_address)
    rows ← rows_of by_address sorted_addresses
    tree ← BalanceTree.new e.hashes rows
    claims ← claims_from by_address tree 0 sorted_addresses []
    total ← token_total by_address 0 sorted_addresses
    root ← found (BalanceTree.get_hex_root e.hashes tree)
    ok (record { merkle_root = root; token_total = e.to_hex_string total; claims = claims })
