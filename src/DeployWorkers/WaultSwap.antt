-- ===== src/DeployWorkers/WaultSwap.antt =====
-- deploy/exec/workers/deploy/wswap-workers02.ts reads the nonce before two calls that take one each.
use bsc_alpaca_contract.Prelude.{suc, String, Option, none, some, ◌≡◌, refl, ◌<◌, arith}
use bsc_alpaca_contract.Script.{Chain, State, read_nonce, call_contract, for_each}
use bsc_alpaca_contract.Script.Order.{Counts}
use bsc_alpaca_contract.Script.Refused.{
  IsThrow, RefusesUsed, after-IsThrow, after_lem, Returned-any, Returned-call_contract,
  call_numbered-IsThrow,
}
use bsc_alpaca_contract.DeployWorkers.Inputs.{WorkerInfo}
use bsc_alpaca_contract.DeployWorkers.Steps.{set_workers_ok}
use bsc_alpaca_contract.DeployWorkers.Exchanges.{
  waultswap, waultswap_round, deploy_worker, all_ok_strats,
}

module _ (c : Chain) (counts : Counts c) where
  set_workers_ok-IsThrow :
      (worker : String) (strat : Option String) (s : State)
      → RefusesUsed c counts
      → s.nonce < c.transaction_count s.sent
      → IsThrow (set_workers_ok c worker strat s)
  unfolding set_workers_ok
  set_workers_ok-IsThrow worker none s refuses old = record { message = _; thrown = refl }
  set_workers_ok-IsThrow worker (some a) s refuses old =
      call_numbered-IsThrow c counts a "setWorkersOk" _ s refuses old

  -- If the chain counts the deployer's transactions and refuses a nonce that was used, then no round
  -- of the WaultSwap script returns, whatever the worker.
  pub waultswap_round-IsThrow :
      (title : String) (i : WorkerInfo) (s : State)
      → RefusesUsed c counts
      → IsThrow (waultswap_round c title i s)
  unfolding waultswap_round read_nonce
  waultswap_round-IsThrow title i s refuses =
      after-IsThrow (λ t. Unit) (deploy_worker c waultswap i s) _
        (Returned-any (deploy_worker c waultswap i s))
        (λ worker t _.
          let n = c.transaction_count t.sent in
          let t₀ : State = record t { nonce = n } in
          after-IsThrow (λ u. (u.nonce ≡ n) × (suc n ≡ c.transaction_count u.sent))
            (call_contract c worker.0 "setReinvestorOk" _ t₀) _
            (Returned-call_contract c counts worker.0 "setReinvestorOk" _ t₀ n refl)
            (λ _ u (same, one).
              after-IsThrow (λ v. (v.nonce ≡ u.nonce) × (suc (suc n) ≡ c.transaction_count v.sent))
                (call_contract c worker.0 "setStrategyOk" _ u) _
                (Returned-call_contract c counts worker.0 "setStrategyOk" _ u (suc n) one)
                (λ _ v (kept, two).
                  let old : v.nonce < c.transaction_count v.sent = omega (arith, same, kept, two) in
                  after_lem (for_each (set_workers_ok c worker.0) (all_ok_strats i) v) _ (
                    after_lem (set_workers_ok c worker.0 i.add_strat_addr v) _
                      (set_workers_ok-IsThrow worker.0 i.add_strat_addr v refuses old)))))
