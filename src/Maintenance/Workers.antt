-- ===== src/Maintenance/Workers.antt =====
-- deploy/exec/workers/config: set-reinvest-config.ts, set-reinvest-config-workers03.ts,
-- set-reward-path.ts and set-max-reinvest-bounty-bps.ts, and deploy/exec/worker-config/config/
-- set-configs.ts.
use Prim.Native.String.{◌++◌ as str_append}
use bsc_alpaca_contract.Prelude.{
  String, Bool, true, false, List, [], ◌∷◌, guard, traverse, length, ◌==◌, if◌then◌else◌,
}
use bsc_alpaca_contract.Address.{compare}
use bsc_alpaca_contract.Timelock.{Request, Item, Param}
use bsc_alpaca_contract.Script.{
  Atom, Value, texts, Chain, Script, ◌>>=◌, ◌>>◌, return, lift, get, for_each, read_nonce,
  call_numbered, call_contract, queue, push_transaction, write_json,
}
use bsc_alpaca_contract.Maintenance.Inputs.{
  WorkerReinvestConfigInput, WorkerReinvestConfig, RewardPathInput, RewardPathConfig,
  SetConfigInput, SetConfigDerivedInput, CurrentConfig, BigNumberish, find_by_name, reinvest_config,
  reinvest_request, reward_path_config, reward_path_request, max_bounty_request, derived_inputs,
  data_request,
}

abbrev pub flag_text : Bool → String
flag_text true = "true"
flag_text false = "false"

module _ (c : Chain) where
  -- `timelockTransactions.push(await TimelockService.queueTransaction(...))`
  unfoldable pub queue_and_keep : Request → Script (Unit {0})
  queue_and_keep r = do tx ← queue c r; push_transaction tx

  unfoldable pub set_reinvest_config :
      String → String → List WorkerReinvestConfigInput → Script (Unit {0})
  set_reinvest_config title eta inputs = do
    s ← get
    configs ← lift (traverse (reinvest_config c.parse_ether s.config) inputs)
    read_nonce c
    for_each (λ r. queue_and_keep (reinvest_request c.chain_id eta r)) configs
    write_json title

  unfoldable pub set_max_reinvest_bounty_bps :
      String → String → String → List String → Script (Unit {0})
  set_max_reinvest_bounty_bps title bps eta names = do
    s ← get
    workers ← lift (traverse (find_by_name s.config) names)
    read_nonce c
    for_each (λ w. queue_and_keep (max_bounty_request c.chain_id bps eta w)) workers
    write_json title

  -- one round: the call is the same for both kinds of worker
  unfoldable pub call_reinvest_config : WorkerReinvestConfig → Script (Unit {0})
  call_reinvest_config r = call_numbered c r.address "setReinvestConfig" (
      Value.atom (Atom.text r.reinvest_bounty_bps)
      ∷ Value.atom (Atom.text r.reinvest_threshold)
      ∷ texts r.reinvest_path
      ∷ [])

  unfoldable pub set_reinvest_config_workers_03 : List WorkerReinvestConfigInput → Script (Unit {0})
  set_reinvest_config_workers_03 inputs = do
    s ← get
    configs ← lift (traverse (reinvest_config c.parse_ether s.config) inputs)
    read_nonce c
    for_each call_reinvest_config configs

  unfoldable pub set_reward_path_round : String → RewardPathConfig → Script (Unit {0})
  set_reward_path_round eta r = do
    s ← get
    if compare (c.owner r.address) s.config.timelock
        then queue_and_keep (reward_path_request c.chain_id eta r)
        else call_numbered c r.address "setRewardPath" (texts r.reward_path ∷ [])

  -- `NONCE` is written into the script, and is the state's nonce at the start
  unfoldable pub set_reward_path : String → String → List RewardPathInput → Script (Unit {0})
  set_reward_path title eta inputs = do
    s ← get
    configs ← lift (traverse (reward_path_config s.config) inputs)
    for_each (set_reward_path_round eta) configs
    t ← get
    if length t.timelock_transactions == 0 then return tt else write_json title

  abbrev field : String → String → String
  field key value = str_append ",\"" (str_append key (str_append "\":" value))

  -- the object passed to `setConfigs`, as JSON; `json_text` is the JSON text of a number
  unfoldable pub config_json : (BigNumberish → String) → SetConfigDerivedInput → String
  config_json json_text i = str_append "{\"acceptDebt\":" (
      str_append (flag_text i.accept_debt) (
        str_append (field "workFactor" (json_text i.work_factor)) (
          str_append (field "killFactor" (json_text i.kill_factor))
            (str_append (field "maxPriceDiff" (json_text i.max_price_diff)) "}"))))

  unfoldable pub set_configs_of :
      (BigNumberish → String) → String → SetConfigDerivedInput → Script (Unit {0})
  set_configs_of json_text eta i = do
    s ← get
    if compare s.config.timelock i.owner_address
        then queue_and_keep (
            data_request c.chain_id
              (str_append ">> Timelock: Setting WorkerConfig for "
                (str_append i.worker_name " via Timelock"))
              i.worker_config_address "setConfigs(address[],(bool,uint64,uint64,uint64)[])"
              ("address[]"
                ∷ "(bool acceptDebt,uint64 workFactor,uint64 killFactor,uint64 maxPriceDiff)[]"
                ∷ [])
              (Param.array (Item.text i.worker_address ∷ [])
                ∷ Param.array (Item.json (config_json json_text i) ∷ [])
                ∷ [])
              eta)
        else call_contract c i.worker_config_address "setConfigs" (
            texts (i.worker_address ∷ [])
            ∷ Value.array (Atom.json (config_json json_text i) ∷ [])
            ∷ [])

  -- `current` is what the multicall answers for a worker.
  unfoldable pub set_configs_script :
      (BigNumberish → String)
      → (String → String → CurrentConfig)
      → String
      → String
      → List SetConfigInput
      → Script (Unit {0})
  set_configs_script json_text current title eta updates = do
    s ← get
    let inputs = derived_inputs c.owner current s.config updates
    lift (guard (length inputs == length updates) "error: cannot derived all input")
    for_each (set_configs_of json_text eta) inputs
    write_json title
