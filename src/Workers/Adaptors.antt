-- ===== src/Workers/Adaptors.antt =====
-- The eight adaptors of deploy/adaptors/workerlike: the calls of each and its expectations, in
-- the order of its `validateConfig`.
use bsc_alpaca_contract.Prelude.{
  String, List, [], ◌∷◌, Option, none, some, Result, Dict, lookup, ◌===◌, if◌then◌else◌,
}
use bsc_alpaca_contract.Workers.Contract.{
  Call, WorkerContract, Expected, expect_eq, expect_same, expect_number, expect_ok, or_zero,
  strategy_calls, partial_close_checks, with_strategy_checks,
}

abbrev Checks : Type 0
Checks = List (Result (Unit {0}))

-- `workerMasterChefV2 || workerMasterChef`, where the first is empty if its call throws
abbrev pub chef_or : Option String → String → String
chef_or none master_chef = master_chef
chef_or (some v2) master_chef = if v2 === "" then master_chef else v2

-- the two expectations that the Biswap adaptor has in any case
unfoldable pub biswap_partial_close_checks : WorkerContract → Dict String → Checks
biswap_partial_close_checks c strategies =
    expect_ok "mis-config on partial close liquidate strat" c
      (or_zero (lookup "StrategyPartialCloseLiquidate" strategies))
    ∷ expect_ok "mis-config on partial close minimize" c
        (or_zero (lookup "StrategyPartialCloseMinimizeTrading" strategies))
    ∷ []

unfoldable pub cake_maxi_calls : Expected → List Call
cake_maxi_calls x =
    Call.view "operator"
    ∷ Call.view "farmingToken"
    ∷ Call.view "pid"
    ∷ Call.view "cakePool"
    ∷ Call.view "router"
    ∷ Call.view "fee"
    ∷ Call.view "feeDenom"
    ∷ Call.view "baseToken"
    ∷ strategy_calls x.worker_info.strategies

unfoldable pub cake_maxi_checks : WorkerContract → Expected → Checks
cake_maxi_checks c x =
    expect_eq "operator mis-config" (c.text_of "operator") x.vault_address
    ∷ expect_eq "stakingToken mis-config" (c.text_of "farmingToken") x.worker_info.staking_token
    ∷ expect_number "pool id mis-config" (c.uint_of "pid") x.worker_info.p_id
    ∷ expect_eq "cakePool mis-config" (c.text_of "cakePool") x.worker_info.staking_token_at
    ∷ expect_eq "router mis-config" (c.text_of "router") x.router_address
    ∷ expect_number "fee" (c.uint_of "fee") 9975
    ∷ expect_number "feeDenom" (c.uint_of "feeDenom") 10000
    ∷ expect_eq "baseToken mis-config" (c.text_of "baseToken") x.vault_token
    ∷ with_strategy_checks c x.worker_info.strategies
        (partial_close_checks c x.worker_info.strategies)

unfoldable pub delta_neutral_pancake_calls : Expected → List Call
delta_neutral_pancake_calls x =
    Call.view "operator"
    ∷ Call.view "lpToken"
    ∷ Call.view "pid"
    ∷ Call.view "masterChefV2"
    ∷ Call.view "router"
    ∷ Call.view "baseToken"
    ∷ strategy_calls x.worker_info.strategies

unfoldable pub delta_neutral_pancake_checks : WorkerContract → Expected → Checks
delta_neutral_pancake_checks c x =
    expect_eq "operator mis-config" (c.text_of "operator") x.vault_address
    ∷ expect_eq "stakingToken mis-config" (c.text_of "lpToken") x.worker_info.staking_token
    ∷ expect_number "pool id mis-config" (c.uint_of "pid") x.worker_info.p_id
    ∷ expect_eq "masterChef mis-config" (c.text_of "masterChefV2") x.worker_info.staking_token_at
    ∷ expect_eq "router mis-config" (c.text_of "router") x.router_address
    ∷ expect_eq "baseToken mis-config" (c.text_of "baseToken") x.vault_token
    ∷ with_strategy_checks c x.worker_info.strategies
        (partial_close_checks c x.worker_info.strategies)

unfoldable pub mdex_calls : Expected → List Call
mdex_calls x =
    Call.view "operator"
    ∷ Call.view "lpToken"
    ∷ Call.view "pid"
    ∷ Call.view "bscPool"
    ∷ Call.view "router"
    ∷ Call.view "feeDenom"
    ∷ Call.view "baseToken"
    ∷ strategy_calls x.worker_info.strategies

unfoldable pub mdex_checks : WorkerContract → Expected → Checks
mdex_checks c x =
    expect_eq "operator mis-config" (c.text_of "operator") x.vault_address
    ∷ expect_eq "lpToken mis-config" (c.text_of "lpToken") x.worker_info.staking_token
    ∷ expect_number "pid mis-config" (c.uint_of "pid") x.worker_info.p_id
    ∷ expect_eq "bscPool mis-config" (c.text_of "bscPool") x.worker_info.staking_token_at
    ∷ expect_eq "router mis-config" (c.text_of "router") x.router_address
    ∷ expect_eq "baseToken mis-config" (c.text_of "baseToken") x.vault_token
    ∷ expect_number "feeDenom" (c.uint_of "feeDenom") 10000
    ∷ with_strategy_checks c x.worker_info.strategies
        (partial_close_checks c x.worker_info.strategies)

unfoldable pub pancake_calls : Expected → List Call
pancake_calls x =
    Call.view "operator"
    ∷ Call.view "lpToken"
    ∷ Call.view "pid"
    ∷ Call.view "masterChef"
    ∷ Call.view "router"
    ∷ Call.view "fee"
    ∷ Call.view "feeDenom"
    ∷ Call.view "baseToken"
    ∷ strategy_calls x.worker_info.strategies

unfoldable pub pancake_checks : WorkerContract → Expected → Checks
pancake_checks c x =
    expect_eq "operator mis-config" (c.text_of "operator") x.vault_address
    ∷ expect_eq "stakingToken mis-config" (c.text_of "lpToken") x.worker_info.staking_token
    ∷ expect_number "pool id mis-config" (c.uint_of "pid") x.worker_info.p_id
    ∷ expect_eq "masterChef mis-config" (chef_or c.master_chef_v2 (c.text_of "masterChef"))
        x.worker_info.staking_token_at
    ∷ expect_eq "router mis-config" (c.text_of "router") x.router_address
    ∷ expect_number "fee" (c.uint_of "fee") 9975
    ∷ expect_number "feeDenom" (c.uint_of "feeDenom") 10000
    ∷ expect_eq "baseToken mis-config" (c.text_of "baseToken") x.vault_token
    ∷ with_strategy_checks c x.worker_info.strategies
        (partial_close_checks c x.worker_info.strategies)

unfoldable pub spooky_calls : Expected → List Call
spooky_calls x =
    Call.view "operator"
    ∷ Call.view "lpToken"
    ∷ Call.view "pid"
    ∷ Call.view "spookyMasterChef"
    ∷ Call.view "router"
    ∷ Call.view "fee"
    ∷ Call.view "feeDenom"
    ∷ Call.view "baseToken"
    ∷ strategy_calls x.worker_info.strategies

unfoldable pub spooky_checks : WorkerContract → Expected → Checks
spooky_checks c x =
    expect_eq "operator mis-config" (c.text_of "operator") x.vault_address
    ∷ expect_eq "stakingToken mis-config" (c.text_of "lpToken") x.worker_info.staking_token
    ∷ expect_number "pool id mis-config" (c.uint_of "pid") x.worker_info.p_id
    ∷ expect_eq "spookyMasterChef mis-config" (c.text_of "spookyMasterChef")
        x.worker_info.staking_token_at
    ∷ expect_eq "router mis-config" (c.text_of "router") x.router_address
    ∷ expect_number "fee" (c.uint_of "fee") 998
    ∷ expect_number "feeDenom" (c.uint_of "feeDenom") 1000
    ∷ expect_eq "baseToken mis-config" (c.text_of "baseToken") x.vault_token
    ∷ with_strategy_checks c x.worker_info.strategies
        (partial_close_checks c x.worker_info.strategies)

unfoldable pub tomb_calls : Expected → List Call
tomb_calls x =
    Call.view "operator"
    ∷ Call.view "lpToken"
    ∷ Call.view "pid"
    ∷ Call.view "tshareRewardPool"
    ∷ Call.view "router"
    ∷ Call.view "fee"
    ∷ Call.view "feeDenom"
    ∷ Call.view "baseToken"
    ∷ strategy_calls x.worker_info.strategies

unfoldable pub tomb_checks : WorkerContract → Expected → Checks
tomb_checks c x =
    expect_eq "operator mis-config" (c.text_of "operator") x.vault_address
    ∷ expect_eq "stakingToken mis-config" (c.text_of "lpToken") x.worker_info.staking_token
    ∷ expect_number "pool id mis-config" (c.uint_of "pid") x.worker_info.p_id
    ∷ expect_eq "tshareRewardPool mis-config" (c.text_of "tshareRewardPool")
        x.worker_info.staking_token_at
    ∷ expect_eq "router mis-config" (c.text_of "router") x.router_address
    ∷ expect_number "fee" (c.uint_of "fee") 998
    ∷ expect_number "feeDenom" (c.uint_of "feeDenom") 1000
    ∷ expect_eq "baseToken mis-config" (c.text_of "baseToken") x.vault_token
    ∷ with_strategy_checks c x.worker_info.strategies
        (partial_close_checks c x.worker_info.strategies)

unfoldable pub wault_calls : Expected → List Call
wault_calls x =
    Call.view "operator"
    ∷ Call.view "lpToken"
    ∷ Call.view "pid"
    ∷ Call.view "wexMaster"
    ∷ Call.view "router"
    ∷ Call.view "fee"
    ∷ Call.view "feeDenom"
    ∷ Call.view "baseToken"
    ∷ strategy_calls x.worker_info.strategies

unfoldable pub wault_checks : WorkerContract → Expected → Checks
wault_checks c x =
    expect_eq "operator mis-config" (c.text_of "operator") x.vault_address
    ∷ expect_eq "lpToken mis-config" (c.text_of "lpToken") x.worker_info.staking_token
    ∷ expect_number "pid mis-config" (c.uint_of "pid") x.worker_info.p_id
    ∷ expect_eq "masterChef mis-config" (c.text_of "wexMaster") x.worker_info.staking_token_at
    ∷ expect_eq "router mis-config" (c.text_of "router") x.router_address
    ∷ expect_eq "baseToken mis-config" (c.text_of "baseToken") x.vault_token
    ∷ expect_number "fee" (c.uint_of "fee") 998
    ∷ expect_number "feeDenom" (c.uint_of "feeDenom") 1000
    ∷ with_strategy_checks c x.worker_info.strategies
        (partial_close_checks c x.worker_info.strategies)

unfoldable pub biswap_calls : Expected → List Call
biswap_calls x =
    Call.view "operator"
    ∷ Call.view "lpToken"
    ∷ Call.view "pid"
    ∷ Call.view "biswapMasterChef"
    ∷ Call.view "router"
    ∷ Call.view "feeDenom"
    ∷ Call.view "baseToken"
    ∷ strategy_calls x.worker_info.strategies

unfoldable pub biswap_checks : WorkerContract → Expected → Checks
biswap_checks c x =
    expect_eq "operator mis-config" (c.text_of "operator") x.vault_address
    ∷ expect_same "stakingToken mis-config" (c.text_of "lpToken") x.worker_info.staking_token
    ∷ expect_number "pool id mis-config" (c.uint_of "pid") x.worker_info.p_id
    ∷ expect_same "masterChef mis-config" (c.text_of "biswapMasterChef")
        x.worker_info.staking_token_at
    ∷ expect_same "router mis-config" (c.text_of "router") x.router_address
    ∷ expect_number "feeDenom" (c.uint_of "feeDenom") 1000
    ∷ expect_same "baseToken mis-config" (c.text_of "baseToken") x.vault_token
    ∷ with_strategy_checks c x.worker_info.strategies
        (biswap_partial_close_checks c x.worker_info.strategies)
