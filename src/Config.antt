-- ===== src/Config.antt =====
-- The interfaces of deploy/interfaces/config.ts. An object that the code reads or writes under a
-- computed key is a dictionary (`Tokens`, `SharedStrategies` and its groups, `Strategies`,
-- `StrategyAddTwoSidesOptimal`, `YieldSources`); a field marked `?` is an `Option`.
use bsc_alpaca_contract.Prelude.{ℕ, String, List, Option, Dict}

pub record Nft : Type 0 where
  pub nft_staking : Option String
  pub nft_boosted_leverage_controller : Option String

pub record AutomateVaultController : Type 0 where
  pub address : String
  pub creditors : List String

pub record Creditor : Type 0 where
  pub name : String
  pub address : String

-- One address for each campaign.
abbrev pub MerkleDistributor : Type 0
MerkleDistributor = Dict String

pub record PoolsEntity : Type 0 where
  pub id : ℕ
  pub name : String
  pub staking_token : String
  pub reward_token : String

pub record GrazingRange : Type 0 where
  pub address : String
  pub deployed_block : ℕ
  pub pools : List PoolsEntity

pub record PoolsEntity1 : Type 0 where
  pub id : ℕ
  pub staking_token : String
  pub address : String

pub record FairLaunch : Type 0 where
  pub address : String
  pub deployed_block : ℕ
  pub pools : List PoolsEntity1

pub record PoolsEntity2 : Type 0 where
  pub id : ℕ
  pub staking_token : String
  pub address : String
  pub rewarder : String

pub record MiniFl : Type 0 where
  pub address : String
  pub deployed_block : ℕ
  pub pools : List PoolsEntity2

pub record YieldPoolsEntity : Type 0 where
  pub p_id : ℕ
  pub name : String
  pub address : String

-- `Pancakeswap`, `Waultswap`, ...: the pools, and the addresses, whose names differ.
pub record YieldSource : Type 0 where
  pub addresses : Dict String
  pub pools : List YieldPoolsEntity

abbrev pub YieldSources : Type 0
YieldSources = Dict YieldSource

-- `Tokens` and `DeltaNeutralVaultTokens`
abbrev pub Tokens : Type 0
Tokens = Dict String

abbrev pub LpTokens : Type 0
LpTokens = Dict String

abbrev pub SharedStrategiesGroup : Type 0
SharedStrategiesGroup = Dict String

abbrev pub SharedStrategies : Type 0
SharedStrategies = Dict SharedStrategiesGroup

pub record SharedConfig : Type 0 where
  pub two_slope_model : Option String
  pub triple_slope_model : String
  pub triple_slope_model_stable_20_max_150 : Option String
  pub triple_slope_model_103 : Option String
  pub w_native_relayer : String
  pub worker_config : String
  pub pancakeswap_single_asset_worker_config : Option String

pub record Oracle : Type 0 where
  pub oracle_medianizer : String
  pub chain_link_oracle : String
  pub simple_oracle : String
  pub delta_neutral_oracle : Option String

abbrev pub StrategyAddTwoSidesOptimal : Type 0
StrategyAddTwoSidesOptimal = Dict String

abbrev pub Strategies : Type 0
Strategies = Dict String

pub record WorkersEntity : Type 0 where
  pub name : String
  pub address : String
  pub deployed_block : ℕ
  pub config : String
  pub p_id : ℕ
  pub staking_token : String
  pub staking_token_at : String
  pub strategies : Strategies

pub record VaultsEntity : Type 0 where
  pub name : String
  pub symbol : String
  pub address : String
  pub deployed_block : ℕ
  pub base_token : String
  pub debt_token : String
  pub config : String
  pub triple_slope_model : String
  pub strategy_add_two_sides_optimal : StrategyAddTwoSidesOptimal
  pub workers : List WorkersEntity

pub record DeltaNeutralVaultsEntity : Type 0 where
  pub name : String
  pub symbol : String
  pub address : String
  pub deployed_block : ℕ
  pub config : String
  pub asset_token : String
  pub stable_token : String
  pub asset_vault : String
  pub stable_vault : String
  pub asset_delta_worker : String
  pub stable_delta_worker : String
  pub gateway : String
  pub oracle : String
  pub asset_vault_pos_id : String
  pub stable_vault_pos_id : String

pub record AutomatedVaultExecutor : Type 0 where
  pub deposit : String
  pub withdraw : String
  pub reinvest : String
  pub rebalance : String
  pub repurchase : Option String
  pub retarget : Option String
  pub migrator : Option String
  pub terminator : Option String
  pub terminator02 : Option String
  pub repay : Option String

pub record Config : Type 0 where
  pub op_multi_sig : String
  pub proxy_admin : String
  pub timelock : String
  pub multi_call : String
  pub multi_call3 : String
  pub ausd_staking : Option String
  pub shield : Option String
  pub revenue_treasury : Option String
  pub delta_neutral_vault_health_checker : Option String
  pub merkle_distributor : Option MerkleDistributor
  pub grazing_range : Option GrazingRange
  pub fair_launch : Option FairLaunch
  pub mini_fl : Option MiniFl
  pub yield_sources : YieldSources
  pub tokens : Tokens
  pub lp_tokens : Option LpTokens
  pub shared_strategies : SharedStrategies
  pub shared_config : SharedConfig
  pub oracle : Oracle
  pub vaults : List VaultsEntity
  pub delta_neutral_vaults : List DeltaNeutralVaultsEntity
  pub automated_vault_controller : Option AutomateVaultController
  pub automated_vault_executor : Option AutomatedVaultExecutor
  pub directional_vault_executor : Option AutomatedVaultExecutor
  pub creditors : Option (List Creditor)
  pub nft : Option Nft
