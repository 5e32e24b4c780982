-- ===== src/Converter.antt =====
-- The class `Converter` of deploy/helper/converter.ts, with the configuration of `getConfig` as an
-- argument.
pub mod Found
use Prim.Native.String.{◌++◌ as str_append}
use bsc_alpaca_contract.Prelude.{
  String, Bool, true, false, List, [], ◌∷◌, Option, none, some, Result, ok, throw, ◌>>=◌, ◌>>◌,
  guard, require, traverse, find, ◌===◌, not, or_else,
}
use bsc_alpaca_contract.Address.{compare}
use bsc_alpaca_contract.Config.{
  Config, Creditor, VaultsEntity, WorkersEntity, DeltaNeutralVaultsEntity,
}

-- An array method called for its errors only: the first error ends it.
abbrev pub for_each : (String → Result (Unit {0})) → List String → Result (Unit {0})
for_each check [] = ok tt
for_each check (input ∷ inputs) = let rest = for_each check inputs in check input >> rest

abbrev pub is_some {ℓ} : {A : Type ℓ} → Option A → Bool
is_some none = false
is_some (some a) = true

-- `validate`, and then `convert` on each input
abbrev pub convert_all {ℓ} :
    {A : Type ℓ}
    → (String → Result (Unit {0}))
    → (String → Result A)
    → List String
    → Result (List A)
convert_all validate convert inputs = for_each validate inputs >> traverse convert inputs

module _ (config : Config) where
  -- `this.config.Creditors!.find(...)`
  abbrev pub find_creditor : String → Option (List Creditor) → Result (Option Creditor)
  find_creditor name none = throw "TypeError"
  find_creditor name (some creditors) = ok (find (λ o. compare o.name name) creditors)

  unfoldable pub validate_creditor_name : String → Result (Unit {0})
  validate_creditor_name name = do
    result ← find_creditor name config.creditors
    creditor ← require (str_append "ERROR Not found Creditor Input :" name) result
    guard (not (creditor.address === "")) "error: not found creditor config address"

  unfoldable pub convert_creditor_name : String → Result String
  convert_creditor_name name = do
    result ← find_creditor name config.creditors
    creditor ← require "TypeError" result
    ok creditor.address

  unfoldable pub convert_creditor_name_to_address : List String → Result (List String)
  convert_creditor_name_to_address names =
      convert_all validate_creditor_name convert_creditor_name names

  unfoldable pub validate_delta_symbol : String → Result (Unit {0})
  validate_delta_symbol symbol =
      guard (is_some (find (λ dlt. compare dlt.symbol symbol) config.delta_neutral_vaults))
        (str_append "ERROR NOT FOUND VAULT ADDRESS :" symbol)

  -- `_convertDeltaSymbol` without a field name
  unfoldable pub convert_delta_symbol : String → Result DeltaNeutralVaultsEntity
  convert_delta_symbol symbol =
      require (str_append "ERROR : DELTA_VAULT_SYMBOL is INVALID : " symbol)
        (find (λ o. compare o.symbol symbol) config.delta_neutral_vaults)

  unfoldable pub convert_delta_symbol_to_obj : List String → Result (List DeltaNeutralVaultsEntity)
  convert_delta_symbol_to_obj symbols =
      convert_all validate_delta_symbol convert_delta_symbol symbols

  -- with the text of a field: a number is printed, and a text is itself
  unfoldable pub convert_delta_symbol_to_address :
      (DeltaNeutralVaultsEntity → String) → List String → Result (List String)
  convert_delta_symbol_to_address field symbols =
      convert_all validate_delta_symbol
        (λ symbol. convert_delta_symbol symbol >>= λ vault. ok (field vault)) symbols

  unfoldable pub validate_vault : String → Result (Unit {0})
  validate_vault input =
      guard (is_some (find (λ v. compare v.address input) config.vaults))
        (str_append "ERROR NOT FOUND VAULT ADDRESS :" input)

  -- `_convertVaults` without a field name
  unfoldable pub convert_vault : String → Result VaultsEntity
  convert_vault input =
      require (str_append "ERROR : VAULT_SYMBOL is INVALID : " input)
        (find (λ o. compare o.address input) config.vaults)

  unfoldable pub convert_addresses_to_vaults : List String → Result (List VaultsEntity)
  convert_addresses_to_vaults addresses = convert_all validate_vault convert_vault addresses

  -- the loop over the vaults in `_validateWorkers`
  unfoldable pub validated_worker : String → List VaultsEntity → Bool
  validated_worker input [] = false
  validated_worker input (vault ∷ vaults) =
      elim (find (λ w. compare w.address input) vault.workers) [
        | some w ↦ true
        | none ↦ validated_worker input vaults
      ]

  unfoldable pub validate_worker : String → Result (Unit {0})
  validate_worker input =
      guard (validated_worker input config.vaults)
        (str_append "ERROR NOT FOUND WORKER ADDRESS :" input)

  -- the loop over the vaults in `_convertWorkers`
  unfoldable pub find_worker : String → List VaultsEntity → Option WorkersEntity
  find_worker input [] = none
  find_worker input (vault ∷ vaults) =
      or_else (find (λ w. compare w.address input) vault.workers) (find_worker input vaults)

  -- `_convertWorkers` without a field name
  unfoldable pub convert_worker : String → Result WorkersEntity
  convert_worker input = do
    validate_worker input
    require (str_append "ERROR : WORKER_INPUT is INVALID : " input)
        (find_worker input config.vaults)

  unfoldable pub convert_addresses_to_workers : List String → Result (List WorkersEntity)
  convert_addresses_to_workers addresses = convert_all validate_worker convert_worker addresses
