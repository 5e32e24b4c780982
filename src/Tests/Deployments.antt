-- ===== src/Tests/Deployments.antt =====
-- Scripts that deploy workers, on a small chain.
use bsc_alpaca_contract.Prelude.{
  ℕ, suc, String, true, List, [], ◌∷◌, Option, none, some, ok, ◌≡◌, refl, inl, inr, ltb,
  if◌then◌else◌, lt→ltb, lookup, insert, to_lower_case, lower, codes_eq,
}
use bsc_alpaca_contract.Address.{compare}
use bsc_alpaca_contract.Config.{Config}
use bsc_alpaca_contract.Timelock.{Services, Effect, queue_transaction, queue_directly, call_of}
use bsc_alpaca_contract.ConfigFile.{
  find_vault_idx, is_vault, add_or_set_vault_worker, save, write_config_file,
}
use bsc_alpaca_contract.ConfigFile.Settings.{add_or_set_yiel_pool}
use bsc_alpaca_contract.Script.{
  Sent, Chain, State, deploy, send, read_nonce, call_numbered, take_nonce, queue, push_transaction,
  write_json, save_config,
}
use bsc_alpaca_contract.DeployWorkers.Steps.{
  set_reinvestor_ok, set_treasury_config, set_strategy_ok, set_workers_ok,
  set_beneficial_vault_config, set_configs, set_workers, queue_and_write, pool_in_config,
  pool_on_chain, yield_source,
}
use bsc_alpaca_contract.Script.Order.{Counts, IsInOrder}
use bsc_alpaca_contract.DeployWorkers.Inputs.{
  WorkerInput, WorkerInfo, worker_info, vault_of, token_address, with_reward_path,
}
use bsc_alpaca_contract.DeployWorkers.Exchanges.{
  mdex_round, biswap_round, deploy_worker, biswap_workers_03, pancakeswap_v2_workers_02,
  tomb_workers_03, spookyswap_workers_03, waultswap_round, record_worker,
}
use bsc_alpaca_contract.DeployWorkers.DeltaNeutral.{
  delta_neutral_pcs_worker, delta_neutral_bs_worker, delta_neutral_spooky_worker, delta_worker_info,
  delta_bs_round, deploy_delta_worker,
}
use bsc_alpaca_contract.DeployWorkers.CakeMaxi.{
  CakeMaxiWorkerInput, cake_maxi_params, beneficial_vault_address, reward_token_address,
}
use bsc_alpaca_contract.DeployWorkers.CakeMaxiScript.{
  cakemaxi_workers_02, cake_maxi_round, deploy_cake_maxi, record_cake_maxi,
}
use bsc_alpaca_contract.DeployWorkers.Nonces.{
  deploy_workers-IsInOrder, deploy_delta_workers-IsInOrder,
}
use bsc_alpaca_contract.Script.Refused.{IsThrow, RefusesUsed}
use bsc_alpaca_contract.DeployWorkers.Mdex.{mdex_round-IsThrow}
use bsc_alpaca_contract.DeployWorkers.WaultSwap.{waultswap_round-IsThrow}
use bsc_alpaca_contract.DeployWorkers.Listed.{IsListed}
use bsc_alpaca_contract.DeployWorkers.Outcomes.{
  deploy_workers-IsListed, deploy_delta_workers-IsListed, cakemaxi_workers_02-IsListed,
}
use bsc_alpaca_contract.Tests.Configs.{toy_config, toy_vault}

abbrev deployer_services : Services
deployer_services = record {
  timelock = "0x12";
  op_multi_sig = "0xAA";
  timelock_admin = "0xbb";
  deployer = "0xBB";
  wallet = none;
  next_nonce = ok 12;
  safe_tx_hash = λ effect. ok "0x77";
  execute_hash = λ call. "0x78";
  encode = λ types params. ok "0x79";
}

-- The deployer has sent five transactions before.
abbrev pub sent_count : List Sent → ℕ
sent_count [] = 5
sent_count (Sent.deployment contract name args ∷ earlier) = suc (suc (sent_count earlier))
sent_count (Sent.call to method args given ∷ earlier) = suc (sent_count earlier)
sent_count (Sent.by_timelock (Effect.queue call) nonce ∷ earlier) = suc (sent_count earlier)
sent_count (Sent.by_timelock effect nonce ∷ earlier) = sent_count earlier

abbrev pub toy_chain : Chain
toy_chain = record {
  services = deployer_services;
  chain_id = 56;
  transaction_count = sent_count;
  latest_count = sent_count;
  rejects = λ x earlier. none;
  deployed_address = λ x earlier. "0xd0";
  deployed_block = λ x earlier. 70;
  owner = λ contract. "0x12";
  parse_ether = λ s. ok s;
  lp_token = λ chef p_id. "0x1b";
  token_0 = λ lp. "0x1c";
  token_1 = λ lp. "0x1d";
  symbol = λ token. "TOKEN";
}

abbrev refused : List Sent → Option ℕ → Option String
refused earlier none = none
refused earlier (some n) =
    if ltb n (sent_count earlier) then some "nonce has already been used" else none

abbrev rejection : Sent → List Sent → Option String
rejection (Sent.call to method args given) earlier = refused earlier given
rejection x earlier = none

abbrev strict_chain : Chain
strict_chain = record toy_chain { rejects = rejection }

abbrev deploy_config : Config
deploy_config = record toy_config {
  yield_sources =
      (
        "Biswap",
        record { addresses = ("MasterChef", "0x31") ∷ ("BiswapRouterV2", "0x32") ∷ []; pools = [] },
      )
      ∷ [];
  shared_strategies =
      (
        "Biswap",
        ("StrategyAddBaseTokenOnly", "0x41")
            ∷ ("StrategyLiquidate", "0x42")
            ∷ ("StrategyPartialCloseLiquidate", "0x43")
            ∷ ("StrategyPartialCloseMinimizeTrading", "0x44")
            ∷ ("StrategyWithdrawMinimizeTrading", "0x45")
            ∷ [],
      )
      ∷ [];
  vaults = record toy_vault { strategy_add_two_sides_optimal = ("Biswap", "0x46") ∷ [] } ∷ [];
}

abbrev pub toy_state : State
toy_state = record {
  nonce = 0;
  sent = [];
  helper = record { config = deploy_config; file_path = ".mainnet.json"; files = [] };
  config = deploy_config;
  timelock_transactions = [];
  json_files = [];
}

abbrev toy_input : WorkerInput
toy_input = record {
  vault_symbol = "ibWBNB";
  worker_name = "CAKE-WBNB BiswapWorker";
  reinvest_bot = "0x51";
  pool_id = 3;
  reinvest_bounty_bps = "900";
  reinvest_path = "CAKE" ∷ [];
  reinvest_threshold = "1";
  work_factor = "7000";
  kill_factor = "8000";
  max_price_diff = "10500";
  beneficial_vault = none;
  exact_eta = "1700000000";
}

pub toy_counts : Counts toy_chain
toy_counts = record {
  count-call = λ to method args requested earlier. refl;
  count-queue = λ call requested earlier. refl;
}

pub toy_admin : compare "0xbb" "0xBB" ≡ true
unfolding compare to_lower_case lower codes_eq
toy_admin = refl

deploy_workers-IsInOrder_example :
    IsInOrder toy_chain (biswap_workers_03 toy_chain "added" (toy_input ∷ []) toy_state).0.sent
    × IsInOrder toy_chain
        (pancakeswap_v2_workers_02 toy_chain "added" (toy_input ∷ []) toy_state).0.sent
    × IsInOrder toy_chain (tomb_workers_03 toy_chain "added" (toy_input ∷ []) toy_state).0.sent
    × IsInOrder toy_chain
        (spookyswap_workers_03 toy_chain "added" (toy_input ∷ []) toy_state).0.sent
deploy_workers-IsInOrder_example =
    deploy_workers-IsInOrder toy_chain toy_counts toy_admin "added" (toy_input ∷ []) toy_state tt

deploy_delta_workers-IsInOrder_example :
    IsInOrder toy_chain
      (delta_neutral_pcs_worker toy_chain "added" (toy_input ∷ []) toy_state).0.sent
    × IsInOrder toy_chain
        (delta_neutral_bs_worker toy_chain "added" (toy_input ∷ []) toy_state).0.sent
    × IsInOrder toy_chain
        (delta_neutral_spooky_worker toy_chain "added" (toy_input ∷ []) toy_state).0.sent
    × IsInOrder toy_chain (cakemaxi_workers_02 toy_chain "mainnet" "added" [] toy_state).0.sent
deploy_delta_workers-IsInOrder_example =
    deploy_delta_workers-IsInOrder toy_chain toy_counts toy_admin "mainnet" "added" (toy_input ∷ [])
      [] toy_state tt

abbrev toy_info : WorkerInfo
toy_info = record {
  worker_name = "CAKE-WBNB BiswapWorker";
  vault_config_addr = "0x0d";
  worker_config_addr = "0x18";
  reinvest_bot = "0x51";
  pool_id = 3;
  vault_addr = "0xCd";
  base_token_addr = "0x0b";
  master_chef_addr = some "0x31";
  router_addr = some "0x32";
  add_strat_addr = some "0x41";
  liq_strat_addr = some "0x42";
  two_sides_strat_addr = some "0x46";
  partial_close_liq_strat_addr = some "0x43";
  partial_close_minimize_strat_addr = some "0x44";
  minimize_trade_strat_addr = some "0x45";
  reinvest_bounty_bps = "900";
  reinvest_path = "0x15" ∷ [];
  reinvest_threshold = "1";
  work_factor = "7000";
  kill_factor = "8000";
  max_price_diff = "10500";
  beneficial_vault = none;
  timelock = "0x12";
  exact_eta = "1700000000";
}

unfoldable biswap_end : State
biswap_end = (biswap_workers_03 toy_chain "added" (toy_input ∷ []) toy_state).0

biswap_run : biswap_workers_03 toy_chain "added" (toy_input ∷ []) toy_state ≡ (biswap_end, ok tt)
unfolding biswap_end biswap_workers_03 worker_info vault_of token_address with_reward_path
    biswap_round deploy_worker deploy send read_nonce set_reinvestor_ok set_strategy_ok
    set_workers_ok set_beneficial_vault_config set_configs set_workers call_numbered take_nonce
    queue_and_write queue queue_transaction queue_directly call_of push_transaction write_json
    pool_on_chain yield_source record_worker save_config add_or_set_yiel_pool
    add_or_set_vault_worker save write_config_file find_vault_idx is_vault compare to_lower_case
    lower codes_eq lookup insert
biswap_run = refl

deploy_workers-IsListed_example : IsListed "CAKE-WBNB BiswapWorker" biswap_end.helper.config.vaults
deploy_workers-IsListed_example =
    deploy_workers-IsListed toy_chain "added" [] toy_input [] toy_state biswap_end (inl biswap_run)

strict_counts : Counts strict_chain
strict_counts = record {
  count-call = λ to method args requested earlier. refl;
  count-queue = λ call requested earlier. refl;
}

strict_refuses : RefusesUsed strict_chain strict_counts
strict_refuses to method args n earlier old =
    ("nonce has already been used", rw (lt→ltb n (sent_count earlier) old) refl)

waultswap_round-IsThrow_example : IsThrow (waultswap_round strict_chain "added" toy_info toy_state)
waultswap_round-IsThrow_example =
    waultswap_round-IsThrow strict_chain strict_counts "added" toy_info toy_state strict_refuses

-- A chain that has not mined a call when it is asked right after it.
abbrev latest : List Sent → ℕ
latest (Sent.call to method args none ∷ earlier) = sent_count earlier
latest earlier = sent_count earlier

abbrev slow_chain : Chain
slow_chain = record strict_chain { latest_count = latest }

slow_counts : Counts slow_chain
slow_counts = record {
  count-call = λ to method args requested earlier. refl;
  count-queue = λ call requested earlier. refl;
}

slow_refuses : RefusesUsed slow_chain slow_counts
slow_refuses to method args n earlier old =
    ("nonce has already been used", rw (lt→ltb n (sent_count earlier) old) refl)

mdex_round-IsThrow_example : IsThrow (mdex_round slow_chain "added" toy_info toy_state)
mdex_round-IsThrow_example =
    mdex_round-IsThrow slow_chain slow_counts "added" toy_info toy_state slow_refuses
      (λ to method args earlier. refl)

-- What the first CakeMaxi round needs of the configuration.
abbrev maxi_config : Config
maxi_config = record deploy_config {
  oracle = record deploy_config.oracle { delta_neutral_oracle = some "0x1c" };
  yield_sources =
      (
        "Pancakeswap",
        record {
          addresses = ("MasterChef", "0x31") ∷ ("RouterV2", "0x32") ∷ [];
          pools = record { p_id = 0; name = "CAKE"; address = "0x1b" } ∷ [];
        },
      )
      ∷ (
        "Biswap",
        record {
          addresses = ("MasterChef", "0x31") ∷ ("BiswapRouterV2", "0x32") ∷ [];
          pools = record { p_id = 3; name = "CAKE-WBNB LP"; address = "0x1b" } ∷ [];
        },
      )
      ∷ [];
  shared_strategies =
      (
        "PancakeswapSingleAsset",
        ("StrategyAddBaseTokenOnly", "0x41")
            ∷ ("StrategyLiquidate", "0x42")
            ∷ ("StrategyPartialCloseLiquidate", "0x43")
            ∷ ("StrategyPartialCloseMinimizeTrading", "0x44")
            ∷ ("StrategyWithdrawMinimizeTrading", "0x45")
            ∷ [],
      )
      ∷ (
        "Biswap",
        ("StrategyAddBaseTokenOnly", "0x41")
            ∷ ("StrategyLiquidate", "0x42")
            ∷ ("StrategyPartialCloseLiquidate", "0x43")
            ∷ ("StrategyPartialCloseMinimizeTrading", "0x44")
            ∷ ("StrategyWithdrawMinimizeTrading", "0x45")
            ∷ ("StrategyPartialCloseNoTrade", "0x47")
            ∷ [],
      )
      ∷ ("All", ("StrategyRepurchaseBorrow", "0x48") ∷ ("StrategyRepurchaseRepay", "0x49") ∷ [])
      ∷ [];
  shared_config = record deploy_config.shared_config {
    pancakeswap_single_asset_worker_config = some "0x4a";
  };
  vaults =
      record toy_vault {
        strategy_add_two_sides_optimal =
            ("Biswap", "0x46") ∷ ("PancakeswapSingleAsset", "0x4b") ∷ [];
      }
      ∷ [];
}

abbrev maxi_state : State
maxi_state = record toy_state {
  config = maxi_config;
  helper = record toy_state.helper { config = maxi_config };
}

abbrev maxi_input : CakeMaxiWorkerInput
maxi_input = record {
  vault_symbol = "ibWBNB";
  worker_name = "WBNB CakeMaxiWorker";
  reinvest_bot = "0x51";
  pool_id = 0;
  beneficial_vault_symbol = "AlpacaFeeder";
  reinvest_bounty_bps = "900";
  beneficial_vault_bounty_bps = "5000";
  work_factor = "7000";
  kill_factor = "8000";
  max_price_diff = "10500";
  path = "CAKE" ∷ [];
  reward_path = "CAKE" ∷ [];
  reinvest_threshold = "1";
  exact_eta = "1700000000";
}

unfoldable maxi_end : State
maxi_end = (cakemaxi_workers_02 toy_chain "mainnet" "added" (maxi_input ∷ []) maxi_state).0

unfoldable delta_end : State
delta_end = (delta_neutral_bs_worker toy_chain "added" (toy_input ∷ []) maxi_state).0

maxi_run :
    cakemaxi_workers_02 toy_chain "mainnet" "added" (maxi_input ∷ []) maxi_state ≡ (maxi_end, ok tt)
unfolding maxi_end cakemaxi_workers_02 cake_maxi_params beneficial_vault_address token_address
    reward_token_address cake_maxi_round deploy_cake_maxi deploy send read_nonce set_reinvestor_ok
    set_treasury_config set_strategy_ok set_workers_ok set_configs set_workers call_numbered
    take_nonce queue_and_write queue queue_transaction queue_directly call_of push_transaction
    write_json pool_in_config yield_source record_cake_maxi save_config add_or_set_vault_worker save
    write_config_file find_vault_idx is_vault compare to_lower_case lower codes_eq lookup insert
maxi_run = refl

delta_run :
    delta_neutral_bs_worker toy_chain "added" (toy_input ∷ []) maxi_state ≡ (delta_end, ok tt)
unfolding delta_end delta_neutral_bs_worker delta_worker_info worker_info vault_of token_address
    with_reward_path delta_bs_round deploy_delta_worker deploy send read_nonce set_reinvestor_ok
    set_treasury_config set_strategy_ok set_workers_ok set_beneficial_vault_config set_configs
    set_workers call_numbered take_nonce queue_and_write queue queue_transaction queue_directly
    call_of push_transaction write_json pool_in_config yield_source record_worker save_config
    add_or_set_vault_worker save write_config_file find_vault_idx is_vault compare to_lower_case
    lower codes_eq lookup insert
delta_run = refl

cakemaxi_workers_02-IsListed_example : IsListed "WBNB CakeMaxiWorker" maxi_end.helper.config.vaults
cakemaxi_workers_02-IsListed_example =
    cakemaxi_workers_02-IsListed toy_chain "mainnet" "added" [] maxi_input [] maxi_state maxi_end
      maxi_run

deploy_delta_workers-IsListed_example :
    IsListed "CAKE-WBNB BiswapWorker" delta_end.helper.config.vaults
deploy_delta_workers-IsListed_example =
    deploy_delta_workers-IsListed toy_chain "added" [] toy_input [] maxi_state delta_end
      (inr (inl delta_run))
