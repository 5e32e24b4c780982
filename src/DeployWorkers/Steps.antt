-- ===== src/DeployWorkers/Steps.antt =====
-- The statements that the worker scripts of deploy/exec share.
use Prim.Native.String.{◌++◌ as str_append}
use bsc_alpaca_contract.Prelude.{
  ℕ, String, true, List, [], ◌∷◌, Option, none, some, require, find, ◌==◌, map, lookup,
  if◌then◌else◌, Result,
}
use bsc_alpaca_contract.Address.{compare}
use bsc_alpaca_contract.Config.{YieldPoolsEntity, YieldSource}
use bsc_alpaca_contract.ConfigFile.Settings.{add_or_set_yiel_pool}
use bsc_alpaca_contract.Timelock.{Request, Item, Param}
use bsc_alpaca_contract.Script.{
  Atom, Value, address, texts, Chain, Script, ◌>>=◌, ◌>>◌, return, lift, get, save_config,
  push_transaction, write_json, call_numbered, queue,
}
use bsc_alpaca_contract.DeployWorkers.Inputs.{BeneficialVaultInput}

-- What `setConfigs` and `setWorkers` are called with, besides the worker.
pub record Link : Type 0 where
  pub worker_config : String
  pub vault_config : String
  pub work_factor : String
  pub kill_factor : String
  pub max_price_diff : String
  pub eta : String

abbrev json_field : String → String → String
json_field key value = str_append "\"" (str_append key (str_append "\":\"" (str_append value "\"")))

-- the object passed to `setConfigs`, as JSON
unfoldable pub worker_config_json : Link → String
worker_config_json l = str_append "{\"acceptDebt\":true," (
    str_append (json_field "workFactor" l.work_factor) (
      str_append "," (
        str_append (json_field "killFactor" l.kill_factor)
          (str_append "," (str_append (json_field "maxPriceDiff" l.max_price_diff) "}")))))

unfoldable pub configs_request : ℕ → String → Link → Request
configs_request chain_id worker l = record {
  chain_id = chain_id;
  info =
      str_append ">> Queue tx on Timelock Setting WorkerConfig via Timelock at "
        (str_append l.worker_config (str_append " for " worker));
  target = l.worker_config;
  value = "0";
  signature = "setConfigs(address[],(bool,uint64,uint64,uint64)[])";
  param_types =
      "address[]" ∷ "(bool acceptDebt,uint64 workFactor,uint64 killFactor,uint64 maxPriceDiff)[]"
      ∷ [];
  params =
      Param.array (Item.text worker ∷ [])
      ∷ Param.array (Item.json (worker_config_json l) ∷ [])
      ∷ [];
  eta = l.eta;
}

-- the request of the scripts that name the time in the information
unfoldable pub set_configs_request : ℕ → String → Link → Request
set_configs_request chain_id worker l =
    let r = configs_request chain_id worker l in
    record r { info = str_append r.info (str_append " ETA " l.eta) }

unfoldable pub set_workers_request : ℕ → String → Link → Request
set_workers_request chain_id worker l = record {
  chain_id = chain_id;
  info =
      str_append ">> Queue tx on Timelock Linking VaultConfig with WorkerConfig via Timelock for "
        l.vault_config;
  target = l.vault_config;
  value = "0";
  signature = "setWorkers(address[],address[])";
  param_types = "address[]" ∷ "address[]" ∷ [];
  params = Param.array (Item.text worker ∷ []) ∷ Param.array (Item.text l.worker_config ∷ []) ∷ [];
  eta = l.eta;
}

abbrev pub yes : Value
yes = Value.atom (Atom.boolean true)

-- the address of a contract that is connected to
abbrev pub connected : Option String → Result String
connected = require "invalid contract address or ENS name"

abbrev pub pool_with_id : ℕ → List YieldPoolsEntity → Option YieldPoolsEntity
pool_with_id p_id pools = find (λ pool. pool.p_id == p_id) pools

module _ (c : Chain) where
  unfoldable pub set_reinvestor_ok : String → String → Script (Unit {0})
  set_reinvestor_ok worker bot =
      call_numbered c worker "setReinvestorOk" (texts (bot ∷ []) ∷ yes ∷ [])

  unfoldable pub set_strategy_ok : String → List (Option String) → Script (Unit {0})
  set_strategy_ok worker strats =
      call_numbered c worker "setStrategyOk" (Value.array (map address strats) ∷ yes ∷ [])

  unfoldable pub set_treasury_config : String → String → String → Script (Unit {0})
  set_treasury_config worker account bounty_bps =
      call_numbered c worker "setTreasuryConfig"
        (Value.atom (Atom.text account) ∷ Value.atom (Atom.text bounty_bps) ∷ [])

  -- one round of the loop over `allOkStrats`
  unfoldable pub set_workers_ok : String → Option String → Script (Unit {0})
  set_workers_ok worker strat = do
    strat_address ← lift (connected strat)
    call_numbered c strat_address "setWorkersOk" (texts (worker ∷ []) ∷ yes ∷ [])

  -- `if (workerInfos[i].BENEFICIAL_VAULT)`
  unfoldable pub set_beneficial_vault_config :
      String → Option BeneficialVaultInput → Script (Unit {0})
  set_beneficial_vault_config worker none = return tt
  set_beneficial_vault_config worker (some b) = call_numbered c worker "setBeneficialVaultConfig" (
      Value.atom (Atom.text b.beneficial_vault_bps)
      ∷ Value.atom (Atom.text b.beneficial_vault_address)
      ∷ texts b.reward_path
      ∷ [])

  -- a transaction queued, kept and written
  unfoldable pub queue_and_write : String → Request → Script (Unit {0})
  queue_and_write title r = do tx ← queue c r; push_transaction tx; write_json title

  -- `WorkerConfig.setConfigs`, through the timelock if that is the owner
  unfoldable pub set_configs : String → String → String → Link → Script (Unit {0})
  set_configs title timelock worker l =
      if compare (c.owner l.worker_config) timelock
      then queue_and_write title (set_configs_request c.chain_id worker l)
      else call_numbered c l.worker_config "setConfigs"
          (texts (worker ∷ []) ∷ Value.array (Atom.json (worker_config_json l) ∷ []) ∷ [])

  -- `VaultConfig.setWorkers`, through the timelock if that is the owner
  unfoldable pub set_workers : String → String → String → Link → Script (Unit {0})
  set_workers title timelock worker l =
      if compare (c.owner l.vault_config) timelock
      then queue_and_write title (set_workers_request c.chain_id worker l)
      else call_numbered c l.vault_config "setWorkers"
          (texts (worker ∷ []) ∷ texts (l.worker_config ∷ []) ∷ [])

  -- `config.YieldSources[source]!`
  unfoldable pub yield_source : String → Script YieldSource
  yield_source source = do
    s ← get
    lift (require "TypeError" (lookup source s.config.yield_sources))

  -- `lpPoolAddress`, from the configuration
  unfoldable pub pool_in_config : String → ℕ → Script String
  pool_in_config source p_id = do
    found ← yield_source source
    pool ← lift (require "TypeError" (pool_with_id p_id found.pools))
    return pool.address

  -- the pool named after its two tokens
  abbrev pool_entity : ℕ → String → YieldPoolsEntity
  pool_entity p_id lp = record {
    p_id = p_id;
    name =
        str_append (c.symbol (c.token_0 lp))
          (str_append "-" (str_append (c.symbol (c.token_1 lp)) " LP"));
    address = lp;
  }

  abbrev pub add_pool : String → YieldPoolsEntity → Option YieldPoolsEntity → Script (Unit {0})
  add_pool source pool none = save_config (add_or_set_yiel_pool source pool)
  add_pool source pool (some found) = return tt

  -- the pool's token on the chain; the pool is added to the configuration if it is not there
  unfoldable pub pool_on_chain : String → Option String → ℕ → Script String
  pool_on_chain source master_chef p_id = do
    chef ← lift (connected master_chef)
    found ← yield_source source
    let lp = c.lp_token chef p_id
    add_pool source (pool_entity p_id lp) (pool_with_id p_id found.pools)
    return lp
