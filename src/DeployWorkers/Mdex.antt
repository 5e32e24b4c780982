-- ===== src/DeployWorkers/Mdex.antt =====
-- deploy/exec/workers/deploy/mdex-workers02.ts reads the nonce right after a call that may be pending.
use bsc_alpaca_contract.Prelude.{suc, String, List, ◌∷◌, none, ◌≡◌, ◌<◌, arith, ap, sym, ◌∙◌}
use bsc_alpaca_contract.Script.{Sent, Value, Chain, State, read_latest_nonce, call_contract, send}
use bsc_alpaca_contract.Script.Order.{Counts}
use bsc_alpaca_contract.Script.Refused.{
  IsThrow, RefusesUsed, Returned, after-IsThrow, after_lem, Returned-any, Returned-send_unless,
  call_numbered-IsThrow,
}
use bsc_alpaca_contract.DeployWorkers.Inputs.{WorkerInfo}
use bsc_alpaca_contract.DeployWorkers.Steps.{set_strategy_ok}
use bsc_alpaca_contract.DeployWorkers.Exchanges.{mdex, mdex_round, deploy_worker, ok_strats}

module _ (c : Chain) (counts : Counts c) where
  -- A call without a nonce is still pending when the count is read next, and what was sent before
  -- it is not.
  abbrev pub LeavesPending : Type 0
  LeavesPending =
      (to method : String) (args : List Value) (earlier : List Sent)
      → c.latest_count (Sent.call to method args none ∷ earlier) ≡ c.transaction_count earlier

  pending_call :
      (to method : String) (args : List Value) (s : State)
      → LeavesPending
      → Returned
          (λ t. suc (c.latest_count t.sent) ≡ c.transaction_count t.sent)
          (call_contract c to method args s)
  unfolding call_contract send
  pending_call to method args s pending =
      let x = Sent.call to method args none in
      Returned-send_unless (c.rejects x s.sent) x s
        (λ t. suc (c.latest_count t.sent) ≡ c.transaction_count t.sent)
        (ap suc (pending to method args s.sent)
          ∙ sym (counts.count-call to method args none s.sent))

  -- If the chain counts the deployer's transactions and refuses a nonce that was used, and a call is
  -- still pending when the number of transactions is read right after it, then no round of the Mdex
  -- script returns, whatever the worker: the script does not wait for its first call.
  pub mdex_round-IsThrow :
      (title : String) (i : WorkerInfo) (s : State)
      → RefusesUsed c counts
      → LeavesPending
      → IsThrow (mdex_round c title i s)
  unfolding mdex_round read_latest_nonce set_strategy_ok
  mdex_round-IsThrow title i s refuses pending =
      after-IsThrow (λ t. Unit) (deploy_worker c mdex i s) _
        (Returned-any (deploy_worker c mdex i s))
        (λ worker t _.
          after-IsThrow (λ u. suc (c.latest_count u.sent) ≡ c.transaction_count u.sent)
            (call_contract c worker.0 "setReinvestorOk" _ t) _
            (pending_call worker.0 "setReinvestorOk" _ t pending)
            (λ _ u behind.
              let v : State = record u { nonce = c.latest_count u.sent } in
              let old : v.nonce < c.transaction_count v.sent = omega (arith, behind) in
              after_lem (set_strategy_ok c worker.0 (ok_strats i) v) _
                (call_numbered-IsThrow c counts worker.0 "setStrategyOk" _ v refuses old)))
