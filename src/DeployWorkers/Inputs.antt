-- ===== src/DeployWorkers/Inputs.antt =====
-- The inputs of the scripts of deploy/exec/workers/deploy, and what they are completed to from the
-- configuration. A field that the code reads with `!` may be `undefined`, which is `none` here.
use Prim.Native.String.{◌++◌ as str_append}
use bsc_alpaca_contract.Prelude.{
  ℕ, String, List, Option, none, some, Result, ok, ◌>>=◌, require, traverse, find, ◌===◌, lookup,
}
use bsc_alpaca_contract.Config.{Config, VaultsEntity}

pub record BeneficialVaultInput : Type 0 where
  pub beneficial_vault_bps : String
  pub beneficial_vault_address : String
  pub reward_path : List String

-- Where an interface has no beneficial vault, that is `none`.
pub record WorkerInput : Type 0 where
  pub vault_symbol : String
  pub worker_name : String
  pub reinvest_bot : String
  pub pool_id : ℕ
  pub reinvest_bounty_bps : String
  pub reinvest_path : List String
  pub reinvest_threshold : String
  pub work_factor : String
  pub kill_factor : String
  pub max_price_diff : String
  pub beneficial_vault : Option BeneficialVaultInput
  pub exact_eta : String

pub record WorkerInfo : Type 0 where
  pub worker_name : String
  pub vault_config_addr : String
  pub worker_config_addr : String
  pub reinvest_bot : String
  pub pool_id : ℕ
  pub vault_addr : String
  pub base_token_addr : String
  pub master_chef_addr : Option String
  pub router_addr : Option String
  pub add_strat_addr : Option String
  pub liq_strat_addr : Option String
  pub two_sides_strat_addr : Option String
  pub partial_close_liq_strat_addr : Option String
  pub partial_close_minimize_strat_addr : Option String
  pub minimize_trade_strat_addr : Option String
  pub reinvest_bounty_bps : String
  pub reinvest_path : List String
  pub reinvest_threshold : String
  pub work_factor : String
  pub kill_factor : String
  pub max_price_diff : String
  pub beneficial_vault : Option BeneficialVaultInput
  pub timelock : String
  pub exact_eta : String

-- The names under which an exchange's addresses stand in the configuration, and its contract.
pub record Exchange : Type 0 where
  pub contract : String
  pub yield_source : String
  pub master_chef : String
  pub router_source : String
  pub router : String
  pub strategies : String
  pub two_sides : String

-- the callback of `REINVEST_PATH.map`
unfoldable pub token_address : Config → String → Result String
token_address config p =
    require (str_append "error: path: unable to find address of " p) (lookup p config.tokens)

unfoldable pub vault_of : Config → String → Result VaultsEntity
vault_of config symbol =
    require (str_append "error: unable to find vault from " symbol)
      (find (λ v. v.symbol === symbol) config.vaults)

-- the beneficial vault, with its path replaced by addresses
unfoldable pub with_reward_path :
    Config → Option BeneficialVaultInput → Result (Option BeneficialVaultInput)
with_reward_path config none = ok none
with_reward_path config (some b) = do
  path ← traverse (token_address config) b.reward_path
  ok (some (record b { reward_path = path }))

-- the callback of `shortWorkerInfos.map`; `parseEther` is the library's
unfoldable pub worker_info :
    (String → Result String) → Exchange → Config → WorkerInput → Result WorkerInfo
worker_info parse_ether exchange config n = do
  vault ← vault_of config n.vault_symbol
  reinvest_path ← traverse (token_address config) n.reinvest_path
  beneficial_vault ← with_reward_path config n.beneficial_vault
  source ← require "TypeError" (lookup exchange.yield_source config.yield_sources)
  router_source ← require "TypeError" (lookup exchange.router_source config.yield_sources)
  strategies ← require "TypeError" (lookup exchange.strategies config.shared_strategies)
  threshold ← parse_ether n.reinvest_threshold
  ok (record {
    worker_name = n.worker_name;
    vault_config_addr = vault.config;
    worker_config_addr = config.shared_config.worker_config;
    reinvest_bot = n.reinvest_bot;
    pool_id = n.pool_id;
    vault_addr = vault.address;
    base_token_addr = vault.base_token;
    master_chef_addr = lookup exchange.master_chef source.addresses;
    router_addr = lookup exchange.router router_source.addresses;
    add_strat_addr = lookup "StrategyAddBaseTokenOnly" strategies;
    liq_strat_addr = lookup "StrategyLiquidate" strategies;
    two_sides_strat_addr = lookup exchange.two_sides vault.strategy_add_two_sides_optimal;
    partial_close_liq_strat_addr = lookup "StrategyPartialCloseLiquidate" strategies;
    partial_close_minimize_strat_addr = lookup "StrategyPartialCloseMinimizeTrading" strategies;
    minimize_trade_strat_addr = lookup "StrategyWithdrawMinimizeTrading" strategies;
    reinvest_bounty_bps = n.reinvest_bounty_bps;
    reinvest_path = reinvest_path;
    reinvest_threshold = threshold;
    work_factor = n.work_factor;
    kill_factor = n.kill_factor;
    max_price_diff = n.max_price_diff;
    beneficial_vault = beneficial_vault;
    timelock = config.timelock;
    exact_eta = n.exact_eta;
  })
