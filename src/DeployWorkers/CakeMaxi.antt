-- ===== src/DeployWorkers/CakeMaxi.antt =====
-- deploy/exec/workers/deploy/cakemaxi-workers02.ts: workers of a single asset.
use Prim.Native.String.{◌++◌ as str_append}
use bsc_alpaca_contract.Prelude.{
  ℕ, String, ◌||◌, ◌===◌, List, Option, Result, ok, ◌>>=◌, ◌>>◌, guard, not, require, traverse,
  find, lookup, if◌then◌else◌,
}
use bsc_alpaca_contract.Config.{Config}
use bsc_alpaca_contract.DeployWorkers.Inputs.{token_address}

pub record CakeMaxiWorkerInput : Type 0 where
  pub vault_symbol : String
  pub worker_name : String
  pub reinvest_bot : String
  pub pool_id : ℕ
  pub beneficial_vault_symbol : String
  pub reinvest_bounty_bps : String
  pub beneficial_vault_bounty_bps : String
  pub work_factor : String
  pub kill_factor : String
  pub max_price_diff : String
  pub path : List String
  pub reward_path : List String
  pub reinvest_threshold : String
  pub exact_eta : String

pub record CakeMaxiWorkerParams : Type 0 where
  pub worker_name : String
  pub vault_config_addr : String
  pub worker_config_addr : Option String
  pub reinvest_bot : String
  pub pool_id : ℕ
  pub vault_addr : String
  pub base_token_addr : String
  pub master_chef_addr : Option String
  pub pancakeswap_router_addr : Option String
  pub beneficial_vault : String
  pub add_strat_addr : Option String
  pub liq_strat_addr : Option String
  pub add_base_with_farm_strat_addr : Option String
  pub minimize_trade_strat_addr : Option String
  pub partial_close_liq_strat_addr : Option String
  pub partial_close_minimize_strat_addr : Option String
  pub reinvest_bounty_bps : String
  pub beneficial_vault_bounty_bps : String
  pub path : List String
  pub reward_path : List String
  pub reinvest_threshold : String
  pub work_factor : String
  pub kill_factor : String
  pub max_price_diff : String
  pub timelock : String
  pub exact_eta : String

-- `beneficialVaultAddress`
unfoldable pub beneficial_vault_address : String → Config → String → Result String
beneficial_vault_address network config symbol =
    if symbol === "AlpacaFeeder"
    then ok (
        if (network === "mainnet") || (network === "mainnetfork")
        then "0x44B3868cbba5fbd2c5D8d1445BDB14458806B3B4"
        else "0x5589FE5BEAe1C642A48eEFF5e80A761343D831a9")
    else do
      vault ← require "TypeError" (find (λ v. v.symbol === symbol) config.vaults)
      ok vault.address

-- the callback of `REWARD_PATH.map`
unfoldable pub reward_token_address : Config → String → Result String
reward_token_address config rp =
    require (str_append "error: reward path: unable to find address of " rp)
      (lookup rp config.tokens)

-- the callback of `shortCakeMaxiWorkerInfo.map`
unfoldable pub cake_maxi_params :
    (String → Result String) → String → Config → CakeMaxiWorkerInput → Result CakeMaxiWorkerParams
cake_maxi_params parse_ether network config n = do
  vault ←
      require (str_append "error: unable to find vault from the given " n.vault_symbol)
        (find (λ v. v.symbol === n.vault_symbol) config.vaults)
  beneficial ← beneficial_vault_address network config n.beneficial_vault_symbol
  guard (not (beneficial === ""))
      "error: unable to find beneficialVault from the given BENEFICIAL_VAULT_SYMBOL"
  path ← traverse (token_address config) n.path
  reward_path ← traverse (reward_token_address config) n.reward_path
  source ← require "TypeError" (lookup "Pancakeswap" config.yield_sources)
  strategies ← require "TypeError" (lookup "PancakeswapSingleAsset" config.shared_strategies)
  threshold ← parse_ether n.reinvest_threshold
  ok (record {
    worker_name = n.worker_name;
    vault_config_addr = vault.config;
    worker_config_addr = config.shared_config.pancakeswap_single_asset_worker_config;
    reinvest_bot = n.reinvest_bot;
    pool_id = n.pool_id;
    vault_addr = vault.address;
    base_token_addr = vault.base_token;
    master_chef_addr = lookup "MasterChef" source.addresses;
    pancakeswap_router_addr = lookup "RouterV2" source.addresses;
    beneficial_vault = beneficial;
    add_strat_addr = lookup "StrategyAddBaseTokenOnly" strategies;
    liq_strat_addr = lookup "StrategyLiquidate" strategies;
    add_base_with_farm_strat_addr =
        lookup "PancakeswapSingleAsset" vault.strategy_add_two_sides_optimal;
    minimize_trade_strat_addr = lookup "StrategyWithdrawMinimizeTrading" strategies;
    partial_close_liq_strat_addr = lookup "StrategyPartialCloseLiquidate" strategies;
    partial_close_minimize_strat_addr = lookup "StrategyPartialCloseMinimizeTrading" strategies;
    reinvest_bounty_bps = n.reinvest_bounty_bps;
    beneficial_vault_bounty_bps = n.beneficial_vault_bounty_bps;
    path = path;
    reward_path = reward_path;
    reinvest_threshold = threshold;
    work_factor = n.work_factor;
    kill_factor = n.kill_factor;
    max_price_diff = n.max_price_diff;
    timelock = config.timelock;
    exact_eta = n.exact_eta;
  })
