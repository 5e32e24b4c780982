-- ===== src/DeployWorkers/DeltaNeutral.antt =====
-- The scripts of deploy/exec/delta-neutral-worker/deploy.
use bsc_alpaca_contract.Prelude.{
  ℕ, String, ◌||◌, ◌===◌, List, [], ◌∷◌, ◌++◌, Option, none, some, Result, ok, throw, traverse,
  lookup, if◌then◌else◌,
}
use bsc_alpaca_contract.Address.{compare}
use bsc_alpaca_contract.Config.{Config, Strategies}
use bsc_alpaca_contract.Timelock.{Request}
use bsc_alpaca_contract.Script.{
  Atom, Value, address, texts, Chain, Script, ◌>>=◌, ◌>>◌, return, lift, get, for_each, deploy,
  read_nonce, call_contract, write_json, push_transaction, queue, call_numbered,
}
use bsc_alpaca_contract.DeployWorkers.Inputs.{WorkerInput, WorkerInfo, Exchange, worker_info}
use bsc_alpaca_contract.DeployWorkers.Steps.{
  Link, set_reinvestor_ok, set_strategy_ok, set_treasury_config, set_workers_ok,
  set_beneficial_vault_config, set_configs, set_workers, queue_and_write, configs_request,
  set_workers_request, worker_config_json, pool_in_config,
}
use bsc_alpaca_contract.DeployWorkers.Exchanges.{property, link_of, strategies_of, record_worker}

abbrev pub delta_pancakeswap : Exchange
delta_pancakeswap = record {
  contract = "DeltaNeutralPancakeMCV2Worker02";
  yield_source = "PancakeswapMasterChefV2";
  master_chef = "MasterChefV2";
  router_source = "PancakeswapMasterChefV2";
  router = "RouterV2";
  strategies = "Pancakeswap";
  two_sides = "PancakeswapDnx";
}

abbrev pub delta_biswap : Exchange
delta_biswap = record {
  contract = "DeltaNeutralBiswapWorker03";
  yield_source = "Biswap";
  master_chef = "MasterChef";
  router_source = "Biswap";
  router = "BiswapRouterV2";
  strategies = "Biswap";
  two_sides = "Biswap";
}

abbrev pub delta_spookyswap : Exchange
delta_spookyswap = record {
  contract = "DeltaNeutralSpookyWorker03";
  yield_source = "SpookySwap";
  master_chef = "SpookyMasterChef";
  router_source = "SpookySwap";
  router = "SpookyRouter";
  strategies = "SpookySwap";
  two_sides = "SpookySwap";
}

-- The fields that a delta neutral worker has besides those of `WorkerInfo`. The script's constant
-- `EXACT_ETA` is the eta of every input.
pub record DeltaWorkerInfo : Type 0 where
  pub base : WorkerInfo
  pub delta_neutral_oracle : Option String
  pub repurchase_borrow_strat_addr : Option String
  pub repurchase_repay_strat_addr : Option String
  pub partial_close_no_trade_strat_addr : Option String

-- `group?.key`
abbrev pub strategy_in : Config → String → String → Option String
strategy_in config group key = elim (lookup group config.shared_strategies) [
  | none ↦ none
  | some strategies ↦ lookup key strategies
]

-- the fields that the callback adds
abbrev pub with_delta_fields : Exchange → Config → Result WorkerInfo → Result DeltaWorkerInfo
with_delta_fields exchange config (throw message) = throw message
with_delta_fields exchange config (ok base) = ok (record {
  base = base;
  delta_neutral_oracle = config.oracle.delta_neutral_oracle;
  repurchase_borrow_strat_addr = strategy_in config "All" "StrategyRepurchaseBorrow";
  repurchase_repay_strat_addr = strategy_in config "All" "StrategyRepurchaseRepay";
  partial_close_no_trade_strat_addr =
      strategy_in config exchange.strategies "StrategyPartialCloseNoTrade";
})

-- the callback of `shortWorkerInfos.map`
unfoldable pub delta_worker_info :
    (String → Result String) → Exchange → Config → WorkerInput → Result DeltaWorkerInfo
delta_worker_info parse_ether exchange config n =
    with_delta_fields exchange config (worker_info parse_ether exchange config n)

abbrev pub delta_ok_strats : DeltaWorkerInfo → List (Option String)
delta_ok_strats i =
    i.base.liq_strat_addr ∷ i.base.two_sides_strat_addr ∷ i.base.minimize_trade_strat_addr
    ∷ i.base.partial_close_liq_strat_addr ∷ i.base.partial_close_minimize_strat_addr
    ∷ i.repurchase_borrow_strat_addr ∷ i.repurchase_repay_strat_addr
    ∷ i.partial_close_no_trade_strat_addr ∷ []

-- `if (addr != "") okStrats.push(addr)`
abbrev pub unless_empty : Option String → List (Option String) → List (Option String)
unless_empty none rest = none ∷ rest
unless_empty (some a) rest = if a === "" then rest else some a ∷ rest

abbrev pub spooky_ok_strats : WorkerInfo → List (Option String)
spooky_ok_strats i =
    i.liq_strat_addr
    ∷ i.two_sides_strat_addr
    ∷ i.minimize_trade_strat_addr
    ∷ unless_empty i.partial_close_liq_strat_addr
        (unless_empty i.partial_close_minimize_strat_addr [])

abbrev pub delta_strategies_of : DeltaWorkerInfo → Strategies
delta_strategies_of i =
    strategies_of i.base
    ++ property "StrategyPartialCloseNoTrade" i.partial_close_no_trade_strat_addr []

module _ (c : Chain) where
  -- the deployment of a delta neutral worker, with the deployer as the treasury account
  unfoldable pub deploy_delta_worker : Exchange → DeltaWorkerInfo → Script (String × ℕ)
  deploy_delta_worker exchange i = deploy c exchange.contract i.base.worker_name (
      Value.atom (Atom.text i.base.vault_addr)
      ∷ Value.atom (Atom.text i.base.base_token_addr)
      ∷ Value.atom (address i.base.master_chef_addr)
      ∷ Value.atom (address i.base.router_addr)
      ∷ Value.atom (Atom.number i.base.pool_id)
      ∷ Value.atom (address i.base.add_strat_addr)
      ∷ Value.atom (Atom.text i.base.reinvest_bounty_bps)
      ∷ Value.atom (Atom.text c.services.deployer)
      ∷ texts i.base.reinvest_path
      ∷ Value.atom (Atom.text i.base.reinvest_threshold)
      ∷ Value.atom (address i.delta_neutral_oracle)
      ∷ [])

  abbrev pub run_delta_script :
      Exchange → (DeltaWorkerInfo → Script (Unit {0})) → List WorkerInput → Script (Unit {0})
  run_delta_script exchange round inputs = do
    s ← get
    infos ← lift (traverse (delta_worker_info c.parse_ether exchange s.config) inputs)
    for_each round infos

  -- Both transactions are queued, whoever owns the configurations.
  unfoldable pub delta_pcs_round : String → DeltaWorkerInfo → Script (Unit {0})
  delta_pcs_round title i = do
    worker ← deploy_delta_worker delta_pancakeswap i
    read_nonce c
    set_reinvestor_ok c worker.0 i.base.reinvest_bot
    set_treasury_config c worker.0 i.base.reinvest_bot i.base.reinvest_bounty_bps
    set_strategy_ok c worker.0 (delta_ok_strats i)
    for_each (set_workers_ok c worker.0) (i.base.add_strat_addr ∷ delta_ok_strats i)
    set_beneficial_vault_config c worker.0 i.base.beneficial_vault
    queue_and_write c title (configs_request c.chain_id worker.0 (link_of i.base))
    queue_and_write c title (set_workers_request c.chain_id worker.0 (link_of i.base))
    lp_token ← pool_in_config c "PancakeswapMasterChefV2" i.base.pool_id
    record_worker c i.base worker lp_token (delta_strategies_of i)

  unfoldable pub delta_neutral_pcs_worker : String → List WorkerInput → Script (Unit {0})
  delta_neutral_pcs_worker title = run_delta_script delta_pancakeswap (delta_pcs_round title)

  unfoldable pub delta_bs_round : String → DeltaWorkerInfo → Script (Unit {0})
  delta_bs_round title i = do
    worker ← deploy_delta_worker delta_biswap i
    read_nonce c
    set_reinvestor_ok c worker.0 i.base.reinvest_bot
    set_treasury_config c worker.0 i.base.reinvest_bot i.base.reinvest_bounty_bps
    set_strategy_ok c worker.0 (delta_ok_strats i)
    for_each (set_workers_ok c worker.0) (i.base.add_strat_addr ∷ delta_ok_strats i)
    set_beneficial_vault_config c worker.0 i.base.beneficial_vault
    set_configs c title i.base.timelock worker.0 (link_of i.base)
    set_workers c title i.base.timelock worker.0 (link_of i.base)
    lp_token ← pool_in_config c "Biswap" i.base.pool_id
    record_worker c i.base worker lp_token (delta_strategies_of i)

  unfoldable pub delta_neutral_bs_worker : String → List WorkerInput → Script (Unit {0})
  delta_neutral_bs_worker title = run_delta_script delta_biswap (delta_bs_round title)

  -- a transaction queued and kept, and written later
  unfoldable pub queue_and_push : Request → Script (Unit {0})
  queue_and_push r = do tx ← queue c r; push_transaction tx

  -- `setConfigs` of the SpookySwap script
  unfoldable pub spooky_set_configs : String → String → Link → Script (Unit {0})
  spooky_set_configs timelock worker l =
      if compare (c.owner l.worker_config) timelock
      then queue_and_push (configs_request c.chain_id worker l)
      else call_numbered c l.worker_config "setConfigs"
          (texts (worker ∷ []) ∷ Value.array (Atom.json (worker_config_json l) ∷ []) ∷ [])

  -- `setWorkers` of the SpookySwap script, whose call is given no nonce
  unfoldable pub spooky_set_workers : String → String → Link → Script (Unit {0})
  spooky_set_workers timelock worker l =
      if compare (c.owner l.vault_config) timelock
      then queue_and_push (set_workers_request c.chain_id worker l)
      else call_contract c l.vault_config "setWorkers"
          (texts (worker ∷ []) ∷ texts (l.worker_config ∷ []) ∷ [])

  unfoldable pub delta_spooky_round : String → DeltaWorkerInfo → Script (Unit {0})
  delta_spooky_round title i = do
    worker ← deploy_delta_worker delta_spookyswap i
    read_nonce c
    set_reinvestor_ok c worker.0 i.base.reinvest_bot
    set_treasury_config c worker.0 i.base.reinvest_bot i.base.reinvest_bounty_bps
    set_strategy_ok c worker.0 (spooky_ok_strats i.base)
    for_each (set_workers_ok c worker.0) (i.base.add_strat_addr ∷ spooky_ok_strats i.base)
    set_beneficial_vault_config c worker.0 i.base.beneficial_vault
    s ← get
    let l = link_of i.base
    spooky_set_configs s.config.timelock worker.0 l
    spooky_set_workers s.config.timelock worker.0 l
    let by_timelock =
        compare (c.owner l.worker_config) s.config.timelock
        || compare (c.owner l.vault_config) s.config.timelock
    if by_timelock then write_json title else return tt
    lp_token ← pool_in_config c "SpookySwap" i.base.pool_id
    record_worker c i.base worker lp_token (strategies_of i.base)

  unfoldable pub delta_neutral_spooky_worker : String → List WorkerInput → Script (Unit {0})
  delta_neutral_spooky_worker title = run_delta_script delta_spookyswap (delta_spooky_round title)
