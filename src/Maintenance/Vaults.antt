-- ===== src/Maintenance/Vaults.antt =====
-- deploy/exec/vault-config/config: set-params.ts and set-whitelisted-callers.ts.
use Prim.Native.String.{◌++◌ as str_append}
use bsc_alpaca_contract.Prelude.{
  ℕ, String, Bool, false, List, [], ◌∷◌, ◌===◌, ◌||◌, traverse, map, if◌then◌else◌,
}
use bsc_alpaca_contract.Address.{compare}
use bsc_alpaca_contract.Config.{Config}
use bsc_alpaca_contract.ConfigFile.{set_vault_interest_model}
use bsc_alpaca_contract.Timelock.{Request, Item, Param}
use bsc_alpaca_contract.Script.{
  Atom, Value, texts, Chain, Script, ◌>>=◌, ◌>>◌, return, lift, get, for_each, read_nonce,
  call_numbered, save_config, write_json,
}
use bsc_alpaca_contract.Maintenance.Inputs.{
  BigNumberish, data_request, text_param, SetParamsInput, SetParamsDerivedInput, VaultParams,
  derived_params, CallersInput, CallersDerivedInput, derived_callers,
}
use bsc_alpaca_contract.Maintenance.Workers.{queue_and_keep, flag_text}

abbrev number_param : (BigNumberish → String) → BigNumberish → Param
number_param json_text (BigNumberish.digits s) = Param.item (Item.text s)
number_param json_text n = Param.item (Item.json (json_text n))

-- the arguments of `setParams`, with `json_text` the JSON text of a number
unfoldable pub params_request : (BigNumberish → String) → ℕ → SetParamsDerivedInput → Request
params_request json_text chain_id i =
    data_request chain_id (str_append "Update " (str_append i.vault_symbol " Vault config"))
      i.vault_config
      "setParams(uint256,uint256,uint256,address,address,address,address,uint256,address)"
      ("uint256" ∷ "uint256" ∷ "uint256" ∷ "address" ∷ "address" ∷ "address" ∷ "address" ∷ "uint256"
        ∷ "address" ∷ [])
      (number_param json_text i.min_debt_size_wei
        ∷ number_param json_text i.reserve_pool_bps
        ∷ number_param json_text i.kill_prize_bps
        ∷ text_param i.interest_model
        ∷ text_param i.wrapped_native
        ∷ text_param i.wnative_relayer
        ∷ text_param i.fairlaunch
        ∷ number_param json_text i.treasury_kill_bps
        ∷ text_param i.treasury_addr
        ∷ [])
      i.exact_eta

abbrev number_value : (BigNumberish → String) → BigNumberish → Value
number_value json_text (BigNumberish.digits s) = Value.atom (Atom.text s)
number_value json_text n = Value.atom (Atom.json (json_text n))

module _ (c : Chain) where
  unfoldable pub call_set_params :
      (BigNumberish → String) → SetParamsDerivedInput → Script (Unit {0})
  call_set_params json_text i = call_numbered c i.vault_config "setParams" (
      number_value json_text i.min_debt_size_wei
      ∷ number_value json_text i.reserve_pool_bps
      ∷ number_value json_text i.kill_prize_bps
      ∷ Value.atom (Atom.text i.interest_model)
      ∷ Value.atom (Atom.text i.wrapped_native)
      ∷ Value.atom (Atom.text i.wnative_relayer)
      ∷ Value.atom (Atom.text i.fairlaunch)
      ∷ number_value json_text i.treasury_kill_bps
      ∷ Value.atom (Atom.text i.treasury_addr)
      ∷ [])

  -- one round of the loop over `infos`
  unfoldable pub set_params_round :
      (BigNumberish → String) → String → SetParamsDerivedInput → Script (Unit {0})
  set_params_round json_text title i = do
    s ← get
    if compare i.owner s.config.timelock
        then queue_and_keep c (params_request json_text c.chain_id i) >> write_json title
        else call_set_params json_text i
    if i.interest_model === ""
        then return tt
        else save_config (set_vault_interest_model i.vault_symbol i.interest_model)

  -- `on_chain` is what the multicall answers for a vault's configuration.
  unfoldable pub set_params :
      (BigNumberish → String)
      → (String → VaultParams)
      → String
      → List SetParamsInput
      → Script (Unit {0})
  set_params json_text on_chain title inputs = do
    s ← get
    read_nonce c
    infos ← lift (traverse (derived_params on_chain s.config) inputs)
    for_each (set_params_round json_text title) infos

  abbrev pub callers_request : String → CallersDerivedInput → Request
  callers_request eta i =
      data_request c.chain_id
        (str_append ">> Queue tx on Timelock to setWhitelistedCallers for " i.vault_config)
        i.vault_config "setWhitelistedCallers(address[],bool)" ("address[]" ∷ "bool" ∷ [])
        (Param.array (map Item.text i.whitelisted_callers)
          ∷ Param.item (Item.json (flag_text i.is_enable))
          ∷ [])
        eta

  -- `owner.toLowerCase() === config.Timelock.toLowerCase()`
  abbrev pub is_timelocked : Config → CallersDerivedInput → Bool
  is_timelocked config i = compare (c.owner i.vault_config) config.timelock

  unfoldable pub callers_round : String → CallersDerivedInput → Script (Unit {0})
  callers_round eta i = do
    s ← get
    if is_timelocked s.config i
        then queue_and_keep c (callers_request eta i)
        else call_numbered c i.vault_config "setWhitelistedCallers"
            (texts i.whitelisted_callers ∷ Value.atom (Atom.boolean i.is_enable) ∷ [])

  -- `isTimeLockExecuted` after the loop
  abbrev pub any_timelocked : Config → List CallersDerivedInput → Bool
  any_timelocked config [] = false
  any_timelocked config (i ∷ is) = is_timelocked config i || any_timelocked config is

  unfoldable pub set_whitelisted_callers : String → String → List CallersInput → Script (Unit {0})
  set_whitelisted_callers title eta targets = do
    s ← get
    read_nonce c
    inputs ← lift (traverse (derived_callers s.config) targets)
    for_each (callers_round eta) inputs
    if any_timelocked s.config inputs then write_json title else return tt
