-- ===== src/Workers/Contract.antt =====
-- What the adaptors of deploy/adaptors/workerlike share: the calls that they make to a worker
-- contract in one multicall, and the expectations that they check one after the other.
use bsc_alpaca_contract.Prelude.{
  ℕ, String, Bool, List, [], ◌∷◌, Option, none, some, Result, ok, throw, ◌>>◌, guard, All, ◌≡◌,
  refl, ◌===◌, ◌==◌, lookup, if◌then◌else◌,
}
use bsc_alpaca_contract.Address.{compare, address_zero}
use bsc_alpaca_contract.Config.{WorkersEntity, Strategies}

-- A call of the contract: a view function by its name, or `okStrats` of a strategy.
pub data Call : Type 0 where
  view : String → Call
  ok_strats : Option String → Call

-- The contract behind a worker's address. `aggregate` is the multicall, which throws if one of its
-- calls fails; the other fields are what the calls return. `master_chef_v2` is `none` where that
-- call throws.
pub record WorkerContract : Type 0 where
  pub aggregate : List Call → Result (Unit {0})
  pub text_of : String → String
  pub uint_of : String → ℕ
  pub is_ok : Option String → Bool
  pub master_chef_v2 : Option String

-- The arguments of `validateConfig`.
pub record Expected : Type 0 where
  pub vault_address : String
  pub vault_token : String
  pub router_address : String
  pub worker_info : WorkersEntity

-- `expect(a).to.be.eq(b, message)` on texts
unfoldable pub expect_eq : String → String → String → Result (Unit {0})
expect_eq message a b = guard (a === b) message

-- the same on texts in lower case
unfoldable pub expect_same : String → String → String → Result (Unit {0})
expect_same message a b = guard (compare a b) message

-- on numbers
unfoldable pub expect_number : String → ℕ → ℕ → Result (Unit {0})
expect_number message a b = guard (a == b) message

-- on a Boolean and `true`
unfoldable pub expect_true : String → Bool → Result (Unit {0})
expect_true message b = guard b message

-- The expectations in order, up to the first that fails.
abbrev pub expect_all : List (Result (Unit {0})) → Result (Unit {0})
expect_all [] = ok tt
expect_all (check ∷ checks) = let rest = expect_all checks in check >> rest

-- The expectations all hold if the sequence of them ends well.
pub expect_all-All :
    (checks : List (Result (Unit {0})))
    → expect_all checks ≡ ok tt
    → All (λ check. check ≡ ok tt) checks
expect_all-All [] h = tt
expect_all-All (ok tt ∷ checks) h = (refl, expect_all-All checks h)
expect_all-All (throw e ∷ checks) h = cc

-- the parameter of `okStrats` for a partial-close strategy
abbrev pub or_zero : Option String → Option String
or_zero none = none
or_zero (some s) = if s === "" then some address_zero else some s

-- the check under `if (strategy !== "")`
abbrev pub unless_empty : Option String → Result (Unit {0}) → Result (Unit {0})
unless_empty none check = check
unless_empty (some s) check = if s === "" then ok tt else check

-- the calls of `okStrats`, which are the same in every adaptor
unfoldable pub strategy_calls : Strategies → List Call
strategy_calls strategies =
    ok_strats (lookup "StrategyAddAllBaseToken" strategies)
    ∷ ok_strats (lookup "StrategyLiquidate" strategies)
    ∷ ok_strats (lookup "StrategyAddTwoSidesOptimal" strategies)
    ∷ ok_strats (lookup "StrategyWithdrawMinimizeTrading" strategies)
    ∷ ok_strats (or_zero (lookup "StrategyPartialCloseLiquidate" strategies))
    ∷ ok_strats (or_zero (lookup "StrategyPartialCloseMinimizeTrading" strategies))
    ∷ []

-- the expectation that the worker approves a strategy
unfoldable pub expect_ok : String → WorkerContract → Option String → Result (Unit {0})
expect_ok message contract strategy = expect_true message (contract.is_ok strategy)

-- the expectations on the two partial-close strategies, which hold if they are not set
unfoldable pub partial_close_checks : WorkerContract → Strategies → List (Result (Unit {0}))
partial_close_checks contract strategies =
    let liquidate = lookup "StrategyPartialCloseLiquidate" strategies in
    let minimize = lookup "StrategyPartialCloseMinimizeTrading" strategies in
    unless_empty liquidate
      (expect_ok "mis-config on partial close liquidate strat" contract (or_zero liquidate))
    ∷ unless_empty minimize
        (expect_ok "mis-config on partial close minimize" contract (or_zero minimize))
    ∷ []

-- the four expectations on strategies before those two, and then `rest`
abbrev pub with_strategy_checks :
    WorkerContract → Strategies → List (Result (Unit {0})) → List (Result (Unit {0}))
with_strategy_checks contract strategies rest =
    expect_ok "mis-config on add base token only strat" contract
      (lookup "StrategyAddAllBaseToken" strategies)
    ∷ expect_ok "mis-config on liquidate strat" contract (lookup "StrategyLiquidate" strategies)
    ∷ expect_ok "mis-config on add two sides strat" contract
        (lookup "StrategyAddTwoSidesOptimal" strategies)
    ∷ expect_ok "mis-config on minimize trading strat" contract
        (lookup "StrategyWithdrawMinimizeTrading" strategies)
    ∷ rest
