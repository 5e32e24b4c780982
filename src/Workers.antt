-- ===== src/Workers.antt =====
-- `WorkerLikeFactory` and the method `validateConfig` of the adaptors that it makes
-- (deploy/adaptors/workerlike, deploy/entities/worker-like.ts).
pub mod Contract
pub mod Adaptors
pub mod Sound
use bsc_alpaca_contract.Prelude.{String, List, Result, ok, throw, ◌>>=◌, ◌>>◌}
use bsc_alpaca_contract.Workers.Contract.{Call, WorkerContract, Expected, expect_all}
use bsc_alpaca_contract.Workers.Adaptors.{
  cake_maxi_calls, cake_maxi_checks, delta_neutral_pancake_calls, delta_neutral_pancake_checks,
  mdex_calls, mdex_checks, pancake_calls, pancake_checks, spooky_calls, spooky_checks, tomb_calls,
  tomb_checks, wault_calls, wault_checks, biswap_calls, biswap_checks,
}

pub data WorkerLike : Type 0 where
  mdex : WorkerLike
  pancake : WorkerLike
  spooky : WorkerLike
  tomb : WorkerLike
  wault : WorkerLike
  cake_maxi : WorkerLike
  delta_neutral_pancake : WorkerLike
  biswap : WorkerLike

-- What tells the adaptors apart.
pub record Adaptor : Type 0 where
  pub calls : Expected → List Call
  pub checks : WorkerContract → Expected → List (Result (Unit {0}))

unfoldable pub new_worker_like : WorkerLike → Adaptor
new_worker_like cake_maxi = record { calls = cake_maxi_calls; checks = cake_maxi_checks }
new_worker_like mdex = record { calls = mdex_calls; checks = mdex_checks }
new_worker_like pancake = record { calls = pancake_calls; checks = pancake_checks }
new_worker_like spooky = record { calls = spooky_calls; checks = spooky_checks }
new_worker_like wault = record { calls = wault_calls; checks = wault_checks }
new_worker_like tomb = record { calls = tomb_calls; checks = tomb_checks }
new_worker_like delta_neutral_pancake = record {
  calls = delta_neutral_pancake_calls;
  checks = delta_neutral_pancake_checks;
}
new_worker_like biswap = record { calls = biswap_calls; checks = biswap_checks }

-- What `validateConfig` logs; it never throws.
pub data Report : Type 0 where
  no_problem : String → Report
  problem : String → String → Report

abbrev pub report : String → Result (Unit {0}) → Report
report name (ok tt) = no_problem name
report name (throw e) = problem name e

unfoldable pub validate_config : Adaptor → WorkerContract → Expected → Report
validate_config adaptor contract x =
    report x.worker_info.name
      (contract.aggregate (adaptor.calls x) >> expect_all (adaptor.checks contract x))
