-- ===== src/InitPositions/Checks.antt =====
-- What init-positions-v2.ts checks of the vaults and tokens of its inputs.
use Prim.Native.String.{◌++◌ as str_append}
use bsc_alpaca_contract.Prelude.{
  String, Bool, true, not, ◌||◌, ◌===◌, Option, none, some, Result, ok, ◌>>=◌, ◌>>◌, guard, require,
  List, find, lookup, if◌then◌else◌,
}
use bsc_alpaca_contract.Address.{compare}
use bsc_alpaca_contract.Config.{VaultsEntity, Tokens}

-- an expected symbol that is not given, or is empty, is not compared
abbrev pub agrees : Option String → String → Bool
agrees none actual = true
agrees (some expected) actual = (expected === "") || (expected === actual)

abbrev text_of : Option String → String
text_of none = "undefined"
text_of (some s) = s

unfoldable pub validate_delta_neutral_vault_by_symbol :
    List VaultsEntity → String → Option String → Result VaultsEntity
validate_delta_neutral_vault_by_symbol vaults target expected = do
  vault ←
      require (str_append "error: unable to find vault address " target)
        (find (λ v. compare v.address target) vaults)
  guard (agrees expected vault.symbol) (
      str_append "error: vault symbol mismatched actual: "
        (str_append vault.symbol (str_append ", expect: " (text_of expected))))
  ok vault

-- The checks of an expected symbol, where `actual` is the symbol that was found.
unfoldable pub check_token : Tokens → String → String → String → Result String
check_token tokens target actual expected = do
  let missing = str_append "error: expected token not found, symbol: " expected
  token ← require missing (lookup expected tokens)
  guard (not (token === "")) missing
  guard (actual === expected) (
      str_append "error: token symbol mismatched actual: "
        (str_append actual (str_append ", expect: " expected)))
  guard (compare target token) (
      str_append "error: token address mismatched actual: "
        (str_append target (str_append ", expect: " token)))
  ok target

abbrev pub check_expected : Tokens → String → String → Option String → Result String
check_expected tokens target actual none = ok target
check_expected tokens target actual (some expected) =
    let checked = check_token tokens target actual expected in
    if expected === "" then ok target else checked

unfoldable pub validate_delta_neutral_token_by_symbol :
    Tokens → String → Option String → Result String
validate_delta_neutral_token_by_symbol tokens target expected = do
  token ←
      require (str_append "error: token not found, address: " target)
        (find (λ d. compare d.1 target) tokens)
  check_expected tokens target token.0 expected

-- The key of the strategies of the exchange that a vault's symbol names.
abbrev pub exchange_of : (String → Bool) → Option String
exchange_of has =
    if has "PCS"
    then some "Pancakeswap"
    else if has "MDEX"
    then some "Mdex"
    else if has "SPK"
    then some "SpookySwap"
    else if has "BS"
    then some "Biswap"
    else none
