-- ===== src/Workers/Sound.antt =====
-- What a worker's configuration satisfies when its adaptor reports no problem.
use bsc_alpaca_contract.Prelude.{
  guard-true, differ, inl, inr, ◌⊎◌, ◌≢◌, Bool-cases, String, true, List, some, Result, ok, throw,
  ◌>>◌, All, ◌≡◌, refl, ◌===◌, ==_iff, eq_iff, lookup,
}
use bsc_alpaca_contract.Address.{compare, compare_refl, address_zero}
use bsc_alpaca_contract.Workers.Contract.{
  WorkerContract, Expected, expect_eq, expect_same, expect_number, expect_true, expect_ok, or_zero,
  expect_all, expect_all-All, with_strategy_checks,
}
use bsc_alpaca_contract.Workers.Adaptors.{
  cake_maxi_checks, delta_neutral_pancake_checks, mdex_checks, pancake_checks, spooky_checks,
  tomb_checks, wault_checks, biswap_checks, biswap_partial_close_checks,
}
use bsc_alpaca_contract.Workers.{
  WorkerLike, Adaptor, new_worker_like, no_problem, report, validate_config,
}

expect_eq-same : (m a b : String) → expect_eq m a b ≡ ok tt → expect_same m a b ≡ ok tt
unfolding expect_eq expect_same
expect_eq-same m a b h =
    let p = (eq_iff a b).0 (guard-true (a === b) m h) in rw (p, compare_refl b) refl

-- The worker is run by the vault, farms the pool of the configuration through the expected router
-- with the vault's token, and approves the four strategies that every worker has.
pub record IsConfigured (c : WorkerContract) (x : Expected) : Type 0 where
  pub operator : c.text_of "operator" ≡ x.vault_address
  pub pool : c.uint_of "pid" ≡ x.worker_info.p_id
  pub router : compare (c.text_of "router") x.router_address ≡ true
  pub base_token : compare (c.text_of "baseToken") x.vault_token ≡ true
  pub add_ok : c.is_ok (lookup "StrategyAddAllBaseToken" x.worker_info.strategies) ≡ true
  pub liquidate_ok : c.is_ok (lookup "StrategyLiquidate" x.worker_info.strategies) ≡ true
  pub two_sides_ok : c.is_ok (lookup "StrategyAddTwoSidesOptimal" x.worker_info.strategies) ≡ true
  pub minimize_ok :
      c.is_ok (lookup "StrategyWithdrawMinimizeTrading" x.worker_info.strategies) ≡ true

report-ok : {name : String} (m : Result (Unit {0})) → report name m ≡ no_problem name → m ≡ ok tt
report-ok (ok tt) h = refl
report-ok (throw e) h = cc

validate_config-All :
    (adaptor : Adaptor) (c : WorkerContract) (x : Expected)
    → validate_config adaptor c x ≡ no_problem x.worker_info.name
    → All (λ check. check ≡ ok tt) (adaptor.checks c x)
unfolding validate_config
validate_config-All adaptor c x clean =
    by_results (c.aggregate (adaptor.calls x)) (adaptor.checks c x) clean
  where
    by_results :
        (m : Result (Unit {0})) (checks : List (Result (Unit {0})))
        → report x.worker_info.name (m >> expect_all checks) ≡ no_problem x.worker_info.name
        → All (λ check. check ≡ ok tt) checks
    by_results (ok tt) checks h = expect_all-All checks (report-ok (expect_all checks) h)
    by_results (throw e) checks h = cc

configured_lem :
    (c : WorkerContract) (x : Expected) (m₁ m₂ m₃ : String) (rest : List (Result (Unit {0})))
    → expect_eq "operator mis-config" (c.text_of "operator") x.vault_address ≡ ok tt
    → expect_number m₁ (c.uint_of "pid") x.worker_info.p_id ≡ ok tt
    → expect_same m₂ (c.text_of "router") x.router_address ≡ ok tt
    → expect_same m₃ (c.text_of "baseToken") x.vault_token ≡ ok tt
    → All (λ check. check ≡ ok tt) (with_strategy_checks c x.worker_info.strategies rest)
    → IsConfigured c x
unfolding expect_eq expect_number expect_same expect_ok expect_true
configured_lem c x m₁ m₂ m₃ rest op pid router base (add, (liquidate, (two_sides, (minimize, _)))) =
    record {
      operator = (eq_iff (c.text_of "operator") x.vault_address).0 (guard-true _ _ op);
      pool = (==_iff (c.uint_of "pid") x.worker_info.p_id).0 (guard-true _ _ pid);
      router = guard-true _ _ router;
      base_token = guard-true _ _ base;
      add_ok = guard-true _ _ add;
      liquidate_ok = guard-true _ _ liquidate;
      two_sides_ok = guard-true _ _ two_sides;
      minimize_ok = guard-true _ _ minimize;
    }

-- If the adaptor of any kind of worker reports no problem, then the worker's operator is the
-- vault, its pool is the configured one, its router and base token are the expected ones up to
-- letter case, and it approves the four strategies that every worker has.
pub validate_config-IsConfigured :
    (kind : WorkerLike) (c : WorkerContract) (x : Expected)
    → validate_config (new_worker_like kind) c x ≡ no_problem x.worker_info.name
    → IsConfigured c x
unfolding new_worker_like cake_maxi_checks delta_neutral_pancake_checks mdex_checks pancake_checks
    spooky_checks tomb_checks wault_checks biswap_checks
validate_config-IsConfigured WorkerLike.cake_maxi c x clean =
    let (op, (_, (pid, (_, (router, (_, (_, (base, strats)))))))) =
      validate_config-All (new_worker_like WorkerLike.cake_maxi) c x clean in
    configured_lem c x _ _ _ _ op pid (expect_eq-same _ _ _ router) (expect_eq-same _ _ _ base)
      strats
validate_config-IsConfigured WorkerLike.delta_neutral_pancake c x clean =
    let (op, (_, (pid, (_, (router, (base, strats)))))) =
      validate_config-All (new_worker_like WorkerLike.delta_neutral_pancake) c x clean in
    configured_lem c x _ _ _ _ op pid (expect_eq-same _ _ _ router) (expect_eq-same _ _ _ base)
      strats
validate_config-IsConfigured WorkerLike.mdex c x clean =
    let (op, (_, (pid, (_, (router, (base, (_, strats))))))) =
      validate_config-All (new_worker_like WorkerLike.mdex) c x clean in
    configured_lem c x _ _ _ _ op pid (expect_eq-same _ _ _ router) (expect_eq-same _ _ _ base)
      strats
validate_config-IsConfigured WorkerLike.pancake c x clean =
    let (op, (_, (pid, (_, (router, (_, (_, (base, strats)))))))) =
      validate_config-All (new_worker_like WorkerLike.pancake) c x clean in
    configured_lem c x _ _ _ _ op pid (expect_eq-same _ _ _ router) (expect_eq-same _ _ _ base)
      strats
validate_config-IsConfigured WorkerLike.spooky c x clean =
    let (op, (_, (pid, (_, (router, (_, (_, (base, strats)))))))) =
      validate_config-All (new_worker_like WorkerLike.spooky) c x clean in
    configured_lem c x _ _ _ _ op pid (expect_eq-same _ _ _ router) (expect_eq-same _ _ _ base)
      strats
validate_config-IsConfigured WorkerLike.tomb c x clean =
    let (op, (_, (pid, (_, (router, (_, (_, (base, strats)))))))) =
      validate_config-All (new_worker_like WorkerLike.tomb) c x clean in
    configured_lem c x _ _ _ _ op pid (expect_eq-same _ _ _ router) (expect_eq-same _ _ _ base)
      strats
validate_config-IsConfigured WorkerLike.wault c x clean =
    let (op, (_, (pid, (_, (router, (base, (_, (_, strats)))))))) =
      validate_config-All (new_worker_like WorkerLike.wault) c x clean in
    configured_lem c x _ _ _ _ op pid (expect_eq-same _ _ _ router) (expect_eq-same _ _ _ base)
      strats
validate_config-IsConfigured WorkerLike.biswap c x clean =
    let (op, (_, (pid, (_, (router, (_, (base, strats))))))) =
      validate_config-All (new_worker_like WorkerLike.biswap) c x clean in
    configured_lem c x _ _ _ _ op pid router base strats

-- The worker approves a strategy, or the zero address in place of one that is not set.
abbrev pub IsApproved : WorkerContract → String → Type 0
IsApproved c strategy =
    ((strategy ≡ "") × (c.is_ok (some address_zero) ≡ true))
    ⊎ ((strategy ≢ "") × (c.is_ok (some strategy) ≡ true))

or_zero-IsApproved :
    (c : WorkerContract) (strategy : String)
    → c.is_ok (or_zero (some strategy)) ≡ true
    → IsApproved c strategy
or_zero-IsApproved c strategy approved = elim (Bool-cases (strategy === "")) [
  | inl unset ↦ inl ((eq_iff strategy "").0 unset, rw unset at approved)
  | inr given ↦ inr ((λ unset. differ ((eq_iff strategy "").1 unset) given), rw given at approved)
]

-- If the adaptor of a Biswap worker reports no problem, and the configuration has its two partial-close
-- strategies, then the worker approves each of them that is set; for each that is not, it approves the
-- zero address.
pub biswap-IsApproved :
    (c : WorkerContract) (x : Expected) (liquidate minimize : String)
    → validate_config (new_worker_like WorkerLike.biswap) c x ≡ no_problem x.worker_info.name
    → lookup "StrategyPartialCloseLiquidate" x.worker_info.strategies ≡ some liquidate
    → lookup "StrategyPartialCloseMinimizeTrading" x.worker_info.strategies ≡ some minimize
    → IsApproved c liquidate × IsApproved c minimize
unfolding new_worker_like biswap_checks biswap_partial_close_checks expect_ok expect_true
biswap-IsApproved c x liquidate minimize clean at_liquidate at_minimize =
    let (_, (_, (_, (_, (_, (_, (_, (_, (_, (_, (_, (first, (second, _))))))))))))) =
      validate_config-All (new_worker_like WorkerLike.biswap) c x clean in
    let liquidate_ok = guard-true _ _ first in
    let minimize_ok = guard-true _ _ second in
    (
      or_zero-IsApproved c liquidate (rw at_liquidate at liquidate_ok),
      or_zero-IsApproved c minimize (rw at_minimize at minimize_ok),
    )
