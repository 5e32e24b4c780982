-- ===== src/DeployWorkers/Exchanges.antt =====
-- deploy/exec/workers/deploy: the scripts for Biswap, PancakeSwap, Mdex, Tomb, SpookySwap and
-- WaultSwap. Each completes its inputs first, and then deploys and links one worker after the other.
use bsc_alpaca_contract.Prelude.{ℕ, String, List, [], ◌∷◌, Option, none, some, traverse, Dict}
use bsc_alpaca_contract.Config.{Strategies}
use bsc_alpaca_contract.ConfigFile.{add_or_set_vault_worker}
use bsc_alpaca_contract.Script.{
  Atom, Value, address, texts, Chain, Script, ◌>>=◌, ◌>>◌, lift, get, for_each, save_config,
  call_contract, deploy, read_nonce, read_latest_nonce,
}
use bsc_alpaca_contract.DeployWorkers.Inputs.{WorkerInput, WorkerInfo, Exchange, worker_info}
use bsc_alpaca_contract.DeployWorkers.Steps.{
  Link, set_reinvestor_ok, set_strategy_ok, set_workers_ok, set_beneficial_vault_config,
  set_configs, set_workers, pool_in_config, pool_on_chain, connected, yes,
}

abbrev pub biswap : Exchange
biswap = record {
  contract = "BiswapWorker03";
  yield_source = "Biswap";
  master_chef = "MasterChef";
  router_source = "Biswap";
  router = "BiswapRouterV2";
  strategies = "Biswap";
  two_sides = "Biswap";
}

abbrev pub pancakeswap : Exchange
pancakeswap = record {
  contract = "PancakeswapV2MCV2Worker02";
  yield_source = "PancakeswapMasterChefV2";
  master_chef = "MasterChefV2";
  router_source = "PancakeswapMasterChefV2";
  router = "RouterV2";
  strategies = "Pancakeswap";
  two_sides = "Pancakeswap";
}

abbrev pub mdex : Exchange
mdex = record {
  contract = "MdexWorker02";
  yield_source = "Mdex";
  master_chef = "BSCPool";
  router_source = "Mdex";
  router = "MdexRouter";
  strategies = "Mdex";
  two_sides = "Mdex";
}

abbrev pub tomb : Exchange
tomb = record {
  contract = "TombWorker03";
  yield_source = "TombFinance";
  master_chef = "TShareRewardPool";
  router_source = "SpookySwap";
  router = "SpookyRouter";
  strategies = "SpookySwap";
  two_sides = "SpookySwap";
}

abbrev pub spookyswap : Exchange
spookyswap = record {
  contract = "SpookyWorker03";
  yield_source = "SpookySwap";
  master_chef = "SpookyMasterChef";
  router_source = "SpookySwap";
  router = "SpookyRouter";
  strategies = "SpookySwap";
  two_sides = "SpookySwap";
}

abbrev pub waultswap : Exchange
waultswap = record {
  contract = "WaultSwapWorker02";
  yield_source = "Waultswap";
  master_chef = "WexMaster";
  router_source = "Waultswap";
  router = "WaultswapRouter";
  strategies = "Waultswap";
  two_sides = "Waultswap";
}

abbrev pub ok_strats : WorkerInfo → List (Option String)
ok_strats i =
    i.two_sides_strat_addr ∷ i.minimize_trade_strat_addr ∷ i.partial_close_liq_strat_addr
    ∷ i.partial_close_minimize_strat_addr ∷ []

abbrev pub all_ok_strats : WorkerInfo → List (Option String)
all_ok_strats i = i.add_strat_addr ∷ i.liq_strat_addr ∷ ok_strats i

abbrev pub link_of : WorkerInfo → Link
link_of i = record {
  worker_config = i.worker_config_addr;
  vault_config = i.vault_config_addr;
  work_factor = i.work_factor;
  kill_factor = i.kill_factor;
  max_price_diff = i.max_price_diff;
  eta = i.exact_eta;
}

-- a property that is set to `undefined` is left out
abbrev pub property : String → Option String → Dict String → Dict String
property key none rest = rest
property key (some v) rest = (key, v) ∷ rest

abbrev pub strategies_of : WorkerInfo → Strategies
strategies_of i = property "StrategyAddAllBaseToken" i.add_strat_addr (
    property "StrategyLiquidate" i.liq_strat_addr (
      property "StrategyAddTwoSidesOptimal" i.two_sides_strat_addr (
        property "StrategyWithdrawMinimizeTrading" i.minimize_trade_strat_addr (
          property "StrategyPartialCloseLiquidate" i.partial_close_liq_strat_addr (
            property "StrategyPartialCloseMinimizeTrading" i.partial_close_minimize_strat_addr
              [])))))

module _ (c : Chain) where
  -- the deployment of the worker's contract
  unfoldable pub deploy_worker : Exchange → WorkerInfo → Script (String × ℕ)
  deploy_worker exchange i = deploy c exchange.contract i.worker_name (
      Value.atom (Atom.text i.vault_addr)
      ∷ Value.atom (Atom.text i.base_token_addr)
      ∷ Value.atom (address i.master_chef_addr)
      ∷ Value.atom (address i.router_addr)
      ∷ Value.atom (Atom.number i.pool_id)
      ∷ Value.atom (address i.add_strat_addr)
      ∷ Value.atom (address i.liq_strat_addr)
      ∷ Value.atom (Atom.text i.reinvest_bounty_bps)
      ∷ Value.atom (Atom.text i.reinvest_bot)
      ∷ texts i.reinvest_path
      ∷ Value.atom (Atom.text i.reinvest_threshold)
      ∷ [])

  -- the worker's entity, and `addOrSetVaultWorker`; the address of the MasterChef is there, since
  -- the deployment has encoded it
  unfoldable pub record_worker : WorkerInfo → String × ℕ → String → Strategies → Script (Unit {0})
  record_worker i worker lp_token strategies = do
    chef ← lift (connected i.master_chef_addr)
    save_config (
        add_or_set_vault_worker i.vault_addr (record {
          name = i.worker_name;
          address = worker.0;
          deployed_block = worker.1;
          config = i.worker_config_addr;
          p_id = i.pool_id;
          staking_token = lp_token;
          staking_token_at = chef;
          strategies = strategies;
        }))

  -- the inputs completed, and then one round after the other
  abbrev pub run_script :
      Exchange → (WorkerInfo → Script (Unit {0})) → List WorkerInput → Script (Unit {0})
  run_script exchange round inputs = do
    s ← get
    infos ← lift (traverse (worker_info c.parse_ether exchange s.config) inputs)
    for_each round infos

  unfoldable pub biswap_round : String → WorkerInfo → Script (Unit {0})
  biswap_round title i = do
    worker ← deploy_worker biswap i
    read_nonce c
    set_reinvestor_ok c worker.0 i.reinvest_bot
    set_strategy_ok c worker.0 (ok_strats i)
    for_each (set_workers_ok c worker.0) (all_ok_strats i)
    set_beneficial_vault_config c worker.0 i.beneficial_vault
    set_configs c title i.timelock worker.0 (link_of i)
    set_workers c title i.timelock worker.0 (link_of i)
    lp_token ← pool_on_chain c "Biswap" i.master_chef_addr i.pool_id
    record_worker i worker lp_token (strategies_of i)

  unfoldable pub biswap_workers_03 : String → List WorkerInput → Script (Unit {0})
  biswap_workers_03 title = run_script biswap (biswap_round title)

  unfoldable pub pancakeswap_round : String → WorkerInfo → Script (Unit {0})
  pancakeswap_round title i = do
    worker ← deploy_worker pancakeswap i
    read_nonce c
    set_reinvestor_ok c worker.0 i.reinvest_bot
    set_strategy_ok c worker.0 (ok_strats i)
    for_each (set_workers_ok c worker.0) (all_ok_strats i)
    set_beneficial_vault_config c worker.0 i.beneficial_vault
    s ← get
    set_configs c title s.config.timelock worker.0 (link_of i)
    set_workers c title s.config.timelock worker.0 (link_of i)
    lp_token ← pool_on_chain c "PancakeswapMasterChefV2" i.master_chef_addr i.pool_id
    record_worker i worker lp_token (strategies_of i)

  unfoldable pub pancakeswap_v2_workers_02 : String → List WorkerInput → Script (Unit {0})
  pancakeswap_v2_workers_02 title = run_script pancakeswap (pancakeswap_round title)

  -- The nonce is read right after a call that is not waited for.
  unfoldable pub mdex_round : String → WorkerInfo → Script (Unit {0})
  mdex_round title i = do
    worker ← deploy_worker mdex i
    call_contract c worker.0 "setReinvestorOk" (texts (i.reinvest_bot ∷ []) ∷ yes ∷ [])
    read_latest_nonce c
    set_strategy_ok c worker.0 (ok_strats i)
    for_each (set_workers_ok c worker.0) (all_ok_strats i)
    set_configs c title i.timelock worker.0 (link_of i)
    set_workers c title i.timelock worker.0 (link_of i)
    lp_token ← pool_in_config c "Mdex" i.pool_id
    record_worker i worker lp_token (strategies_of i)

  unfoldable pub mdex_workers_02 : String → List WorkerInput → Script (Unit {0})
  mdex_workers_02 title = run_script mdex (mdex_round title)

  unfoldable pub tomb_round : String → WorkerInfo → Script (Unit {0})
  tomb_round title i = do
    worker ← deploy_worker tomb i
    read_nonce c
    set_reinvestor_ok c worker.0 i.reinvest_bot
    set_strategy_ok c worker.0 (ok_strats i)
    for_each (set_workers_ok c worker.0) (all_ok_strats i)
    set_configs c title i.timelock worker.0 (link_of i)
    set_workers c title i.timelock worker.0 (link_of i)
    lp_token ← pool_in_config c "TombFinance" i.pool_id
    record_worker i worker lp_token (strategies_of i)

  unfoldable pub tomb_workers_03 : String → List WorkerInput → Script (Unit {0})
  tomb_workers_03 title = run_script tomb (tomb_round title)

  unfoldable pub spookyswap_round : String → WorkerInfo → Script (Unit {0})
  spookyswap_round title i = do
    worker ← deploy_worker spookyswap i
    read_nonce c
    set_reinvestor_ok c worker.0 i.reinvest_bot
    set_strategy_ok c worker.0 (ok_strats i)
    for_each (set_workers_ok c worker.0) (all_ok_strats i)
    set_beneficial_vault_config c worker.0 i.beneficial_vault
    set_configs c title i.timelock worker.0 (link_of i)
    set_workers c title i.timelock worker.0 (link_of i)
    lp_token ← pool_in_config c "SpookySwap" i.pool_id
    record_worker i worker lp_token (strategies_of i)

  unfoldable pub spookyswap_workers_03 : String → List WorkerInput → Script (Unit {0})
  spookyswap_workers_03 title = run_script spookyswap (spookyswap_round title)

  -- The nonce is read before two calls that are sent without one.
  unfoldable pub waultswap_round : String → WorkerInfo → Script (Unit {0})
  waultswap_round title i = do
    worker ← deploy_worker waultswap i
    read_nonce c
    call_contract c worker.0 "setReinvestorOk" (texts (i.reinvest_bot ∷ []) ∷ yes ∷ [])
    call_contract c worker.0 "setStrategyOk" (
        Value.array (
          address i.two_sides_strat_addr
          ∷ address i.minimize_trade_strat_addr
          ∷ address i.partial_close_liq_strat_addr
          ∷ address i.partial_close_minimize_strat_addr
          ∷ [])
        ∷ yes
        ∷ [])
    for_each (set_workers_ok c worker.0) (all_ok_strats i)
    set_configs c title i.timelock worker.0 (link_of i)
    set_workers c title i.timelock worker.0 (link_of i)
    lp_token ← pool_in_config c "Waultswap" i.pool_id
    record_worker i worker lp_token (strategies_of i)

  unfoldable pub wswap_workers_02 : String → List WorkerInput → Script (Unit {0})
  wswap_workers_02 title = run_script waultswap (waultswap_round title)
