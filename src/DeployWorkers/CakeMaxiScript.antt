-- ===== src/DeployWorkers/CakeMaxiScript.antt =====
-- The loop of deploy/exec/workers/deploy/cakemaxi-workers02.ts.
use bsc_alpaca_contract.Prelude.{ℕ, String, List, [], ◌∷◌, Option, traverse}
use bsc_alpaca_contract.Config.{Strategies}
use bsc_alpaca_contract.ConfigFile.{add_or_set_vault_worker}
use bsc_alpaca_contract.Script.{
  Atom, Value, address, texts, Chain, Script, ◌>>=◌, ◌>>◌, lift, get, for_each, deploy, read_nonce,
  save_config,
}
use bsc_alpaca_contract.DeployWorkers.Steps.{
  Link, set_reinvestor_ok, set_strategy_ok, set_treasury_config, set_workers_ok, set_configs,
  set_workers, pool_in_config, connected,
}
use bsc_alpaca_contract.DeployWorkers.Exchanges.{property}
use bsc_alpaca_contract.DeployWorkers.CakeMaxi.{
  CakeMaxiWorkerInput, CakeMaxiWorkerParams, cake_maxi_params,
}

abbrev pub maxi_ok_strats : CakeMaxiWorkerParams → List (Option String)
maxi_ok_strats i =
    i.add_base_with_farm_strat_addr ∷ i.minimize_trade_strat_addr ∷ i.partial_close_liq_strat_addr
    ∷ i.partial_close_minimize_strat_addr ∷ []

abbrev pub maxi_strategies_of : CakeMaxiWorkerParams → Strategies
maxi_strategies_of i = property "StrategyAddAllBaseToken" i.add_strat_addr (
    property "StrategyLiquidate" i.liq_strat_addr (
      property "StrategyAddTwoSidesOptimal" i.add_base_with_farm_strat_addr (
        property "StrategyWithdrawMinimizeTrading" i.minimize_trade_strat_addr (
          property "StrategyPartialCloseLiquidate" i.partial_close_liq_strat_addr (
            property "StrategyPartialCloseMinimizeTrading" i.partial_close_minimize_strat_addr
              [])))))

abbrev pub maxi_link : CakeMaxiWorkerParams → String → Link
maxi_link i worker_config = record {
  worker_config = worker_config;
  vault_config = i.vault_config_addr;
  work_factor = i.work_factor;
  kill_factor = i.kill_factor;
  max_price_diff = i.max_price_diff;
  eta = i.exact_eta;
}

module _ (c : Chain) where
  unfoldable pub deploy_cake_maxi : CakeMaxiWorkerParams → Script (String × ℕ)
  deploy_cake_maxi i = deploy c "CakeMaxiWorker02" i.worker_name (
      Value.atom (Atom.text i.vault_addr)
      ∷ Value.atom (Atom.text i.base_token_addr)
      ∷ Value.atom (address i.master_chef_addr)
      ∷ Value.atom (address i.pancakeswap_router_addr)
      ∷ Value.atom (Atom.text i.beneficial_vault)
      ∷ Value.atom (Atom.number i.pool_id)
      ∷ Value.atom (address i.add_strat_addr)
      ∷ Value.atom (address i.liq_strat_addr)
      ∷ Value.atom (Atom.text i.reinvest_bounty_bps)
      ∷ Value.atom (Atom.text i.beneficial_vault_bounty_bps)
      ∷ texts i.path
      ∷ texts i.reward_path
      ∷ Value.atom (Atom.text i.reinvest_threshold)
      ∷ [])

  -- the worker's entity, and `addOrSetVaultWorker`
  unfoldable pub record_cake_maxi :
      CakeMaxiWorkerParams → String × ℕ → String → String → Script (Unit {0})
  record_cake_maxi i worker worker_config lp_token = do
    chef ← lift (connected i.master_chef_addr)
    save_config (
        add_or_set_vault_worker i.vault_addr (record {
          name = i.worker_name;
          address = worker.0;
          deployed_block = worker.1;
          config = worker_config;
          p_id = i.pool_id;
          staking_token = lp_token;
          staking_token_at = chef;
          strategies = maxi_strategies_of i;
        }))

  unfoldable pub cake_maxi_round : String → CakeMaxiWorkerParams → Script (Unit {0})
  cake_maxi_round title i = do
    worker ← deploy_cake_maxi i
    read_nonce c
    set_reinvestor_ok c worker.0 i.reinvest_bot
    set_treasury_config c worker.0 i.reinvest_bot i.reinvest_bounty_bps
    set_strategy_ok c worker.0 (maxi_ok_strats i)
    for_each (set_workers_ok c worker.0) (i.add_strat_addr ∷ i.liq_strat_addr ∷ maxi_ok_strats i)
    worker_config ← lift (connected i.worker_config_addr)
    set_configs c title i.timelock worker.0 (maxi_link i worker_config)
    set_workers c title i.timelock worker.0 (maxi_link i worker_config)
    lp_token ← pool_in_config c "Pancakeswap" i.pool_id
    record_cake_maxi i worker worker_config lp_token

  unfoldable pub cakemaxi_workers_02 :
      String → String → List CakeMaxiWorkerInput → Script (Unit {0})
  cakemaxi_workers_02 network title inputs = do
    s ← get
    infos ← lift (traverse (cake_maxi_params c.parse_ether network s.config) inputs)
    for_each (cake_maxi_round title) infos
