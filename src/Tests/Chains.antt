-- ===== src/Tests/Chains.antt =====
-- The validation of the configuration against contracts that answer as it expects.
use bsc_alpaca_contract.Prelude.{
  ℕ, String, true, false, List, [], ◌∷◌, none, some, ◌≡◌, refl, ok, All, ◌===◌, lookup,
  to_lower_case, lower, codes_eq, if◌then◌else◌,
}
use bsc_alpaca_contract.Address.{compare}
use bsc_alpaca_contract.Workers.{WorkerLike, new_worker_like, Report, validate_config}
use bsc_alpaca_contract.Workers.Contract.{
  WorkerContract, Expected, expect_eq, expect_same, expect_number, expect_true, expect_ok,
  partial_close_checks,
}
use bsc_alpaca_contract.Workers.Adaptors.{biswap_checks, biswap_partial_close_checks, spooky_checks}
use bsc_alpaca_contract.Workers.Sound.{
  IsConfigured, validate_config-IsConfigured, IsApproved, biswap-IsApproved,
}
use bsc_alpaca_contract.Validate.{
  Chain, IStrategyRouterInfo, ITwoSidesVaultRouterInfo, is_set, filter_set, validate_strategies,
  validate_two_sides_strategies, validate_approve_add_strategies,
}
use bsc_alpaca_contract.Validate.Strategies.{
  HasTwoSides, validate_strategies-All, validate_two_sides_strategies-All,
  validate_approve_add_strategies-passes,
}
use bsc_alpaca_contract.Tests.Configs.{toy_worker}

abbrev answer : String → String
answer name =
    if name === "operator"
    then "0x20"
    else if name === "lpToken"
    then "0x03"
    else if name === "router"
    then "0xBB"
    else if name === "baseToken"
    then "0x21"
    else "0x04"

abbrev number : ℕ → String → ℕ
number fee name = if name === "pid" then 3 else if name === "fee" then fee else 1000

abbrev toy_contract : WorkerContract
toy_contract = record {
  aggregate = λ calls. ok tt;
  text_of = answer;
  uint_of = number 998;
  is_ok = λ strategy. true;
  master_chef_v2 = none;
}

abbrev toy_expected : Expected
toy_expected = record {
  vault_address = "0x20";
  vault_token = "0x21";
  router_address = "0xBB";
  worker_info = toy_worker;
}

toy_spooky :
    validate_config (new_worker_like WorkerLike.spooky) toy_contract toy_expected
    ≡ Report.no_problem toy_worker.name
unfolding validate_config new_worker_like spooky_checks expect_eq expect_number expect_ok
    expect_true partial_close_checks lookup
toy_spooky = refl

validate_config-IsConfigured_example : IsConfigured toy_contract toy_expected
validate_config-IsConfigured_example =
    validate_config-IsConfigured WorkerLike.spooky toy_contract toy_expected toy_spooky

-- One of the partial-close strategies is set.
abbrev partial_expected : Expected
partial_expected = record toy_expected {
  worker_info = record toy_worker {
    strategies =
        ("StrategyPartialCloseLiquidate", "0x09")
        ∷ ("StrategyPartialCloseMinimizeTrading", "")
        ∷ [];
  };
}

toy_biswap :
    validate_config (new_worker_like WorkerLike.biswap) toy_contract partial_expected
    ≡ Report.no_problem toy_worker.name
unfolding validate_config new_worker_like biswap_checks expect_eq expect_same expect_number
    expect_ok expect_true biswap_partial_close_checks lookup compare to_lower_case lower codes_eq
toy_biswap = refl

toy_liquidate :
    lookup "StrategyPartialCloseLiquidate" partial_expected.worker_info.strategies ≡ some "0x09"
unfolding lookup
toy_liquidate = refl

toy_minimize :
    lookup "StrategyPartialCloseMinimizeTrading" partial_expected.worker_info.strategies ≡ some ""
unfolding lookup
toy_minimize = refl

biswap-IsApproved_example : IsApproved toy_contract "0x09" × IsApproved toy_contract ""
biswap-IsApproved_example =
    biswap-IsApproved toy_contract partial_expected "0x09" "" toy_biswap toy_liquidate toy_minimize

abbrev toy_chain : Chain
toy_chain = record {
  router = λ address. ok "0xBB";
  vault = λ address. ok "0x20";
  approved_add_strategies = λ config strategy. ok false;
  worker_at = λ address. toy_contract;
  delta_text = λ address name. "0x00";
  delta_pos_id = λ address name. 0;
}

abbrev toy_info : IStrategyRouterInfo
toy_info = record { strategy_address = some "0x31"; expected_router = "0xbb" }

toy_info-passes : validate_strategies toy_chain (toy_info ∷ []) ≡ ok tt
unfolding validate_strategies compare to_lower_case lower codes_eq
toy_info-passes = refl

validate_strategies-All_example :
    All
      (λ info.
        (router : String) × (toy_chain.router info.strategy_address ≡ ok router)
        × (compare router info.expected_router ≡ true))
      (toy_info ∷ [])
validate_strategies-All_example = validate_strategies-All toy_chain (toy_info ∷ []) toy_info-passes

abbrev toy_two_sides : List ITwoSidesVaultRouterInfo
toy_two_sides =
    record { strategy_address = some "0x32"; expected_vault = "0x20"; expected_router = "0xbb" }
    ∷ record { strategy_address = some ""; expected_vault = "0x20"; expected_router = "0xcc" }
    ∷ []

toy_two_sides-pass : validate_two_sides_strategies toy_chain toy_two_sides ≡ ok tt
unfolding validate_two_sides_strategies filter_set compare to_lower_case lower codes_eq
toy_two_sides-pass = refl

validate_two_sides_strategies-All_example :
    All (λ info. is_set info.strategy_address ≡ true → HasTwoSides toy_chain info) toy_two_sides
validate_two_sides_strategies-All_example =
    validate_two_sides_strategies-All toy_chain toy_two_sides toy_two_sides-pass

validate_approve_add_strategies-passes_example :
    validate_approve_add_strategies toy_chain "0x40" (some "0x31" ∷ some "0x32" ∷ []) ≡ ok tt
validate_approve_add_strategies-passes_example =
    validate_approve_add_strategies-passes toy_chain "0x40" (some "0x31" ∷ some "0x32" ∷ [])
      (false ∷ false ∷ []) refl
