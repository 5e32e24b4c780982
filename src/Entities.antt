-- ===== src/Entities.antt =====
-- deploy/entities: the configuration of a network, workers and strategies by name.
pub mod Names
use Prim.Native.String.{◌++◌ as str_append}
use bsc_alpaca_contract.Prelude.{
  String, ◌||◌, List, [], ◌∷◌, ◌++◌, Option, none, some, Result, ok, throw, ◌>>=◌, require,
  traverse, find, ◌===◌, includes, lookup, Dict, if◌then◌else◌,
}
use bsc_alpaca_contract.Config.{Config, VaultsEntity, WorkersEntity}

-- The four configuration files that the repository holds.
pub record Networks : Type 0 where
  pub mainnet_config : Config
  pub testnet_config : Config
  pub fantom_mainnet_config : Config
  pub fantom_testnet_config : Config

-- `getConfig`, with `network.name`
unfoldable pub get_config : Networks → String → Result Config
get_config networks name =
    if (name === "mainnet") || (name === "mainnetfork")
    then ok networks.mainnet_config
    else if name === "testnet"
    then ok networks.testnet_config
    else if (name === "fantom_mainnet") || (name === "fantom_mainnetfork")
    then ok networks.fantom_mainnet_config
    else if name === "fantom_testnet"
    then ok networks.fantom_testnet_config
    else throw "not found config"

-- `allWorkers`: the workers of every vault, in order
unfoldable pub all_workers : List VaultsEntity → List WorkersEntity
all_workers [] = []
all_workers (vault ∷ vaults) = vault.workers ++ all_workers vaults

-- one round of the `map` of `mapWorkers`
unfoldable pub map_worker : List WorkersEntity → String → Result WorkersEntity
map_worker workers name =
    require (str_append "could not find " name) (find (λ worker. worker.name === name) workers)

unfoldable pub map_workers : Config → List String → Result (List WorkersEntity)
map_workers config names = traverse (map_worker (all_workers config.vaults)) names

pub data WorkerFactory : Type 0 where
  pancakeswap_v2_worker_02 : WorkerFactory
  waultswap_worker_02 : WorkerFactory
  cakemaxi_worker_02 : WorkerFactory

unfoldable pub get_factory : String → Result WorkerFactory
get_factory name =
    if includes name "CakeMaxiWorker"
    then ok cakemaxi_worker_02
    else if includes name "PancakeswapWorker"
    then ok pancakeswap_v2_worker_02
    else if includes name "WaultswapWorker"
    then ok waultswap_worker_02
    else throw (str_append "getFactory:: unable to return a factor regarding to the worker " name)

pub data Strats : Type 0 where
  btoken_only : Strats
  twosides : Strats
  liquidate_all : Strats
  withdraw_minimize : Strats
  partial_close_liquidate : Strats
  partial_close_withdraw_minizmie : Strats
  oracle_minimize : Strats
  oracle_liquidate : Strats

pub record ProxyStrat : Type 0 where
  pub proxy : Option String
  pub strat : Strats

-- the list that `getShareStratsProxy` builds from a group that is there
unfoldable pub proxies_of : Dict String → List ProxyStrat
proxies_of group =
    record { proxy = lookup "StrategyAddBaseTokenOnly" group; strat = btoken_only }
    ∷ record { proxy = lookup "StrategyLiquidate" group; strat = liquidate_all }
    ∷ record {
      proxy = lookup "StrategyPartialCloseLiquidate" group;
      strat = partial_close_liquidate;
    }
    ∷ record {
      proxy = lookup "StrategyPartialCloseMinimizeTrading" group;
      strat = partial_close_withdraw_minizmie;
    }
    ∷ record { proxy = lookup "StrategyWithdrawMinimizeTrading" group; strat = withdraw_minimize }
    ∷ []

-- the key of `SharedStrategies` for a strategy id
unfoldable pub group_key : String → Option String
group_key group =
    if group === "PancakeswapV2"
    then some "Pancakeswap"
    else if group === "PancakeswapV2SingleAsset"
    then some "PancakeswapSingleAsset"
    else if group === "WaultSwap"
    then some "Waultswap"
    else none

unfoldable pub get_share_strats_proxy : Config → String → Result (List ProxyStrat)
get_share_strats_proxy config group = do
  key ← require "getShareStratsProxy: unknown group" (group_key group)
  strategies ← require "TypeError" (lookup key config.shared_strategies)
  ok (proxies_of strategies)
