-- ===== src/Maintenance/Queued.antt =====
-- What the scripts that queue one transaction for each worker leave behind.
use bsc_alpaca_contract.Prelude.{
  ℕ, suc, String, List, [], ◌∷◌, ◌++◌, Option, none, some, ok, ◌≡◌, refl, ◌∙◌, traverse, map,
  lookup, insert, lookup-insert, ◌===◌, eq_refl, if◌then◌else◌, length, ◌+◌, arith, >>=-eq-ok,
  ok_injective,
}
use mathlib.Core.List.{append_assoc, append-nil}
use bsc_alpaca_contract.Timelock.{
  Request, TimelockCall, Effect, Transaction, call_of, transaction, queue_directly,
  queue_transaction,
}
use bsc_alpaca_contract.Script.{
  Sent, Chain, State, for_each, read_nonce, take_nonce, send, queue, push_transaction, write_json,
}
use bsc_alpaca_contract.Script.Order.{IsAdmin}
use bsc_alpaca_contract.Maintenance.Inputs.{
  WorkerReinvestConfigInput, WorkerReinvestConfig, reinvest_config, reinvest_request,
}
use bsc_alpaca_contract.Maintenance.Workers.{queue_and_keep, set_reinvest_config}

-- The calls, sent with the nonces from `n` on; the latest comes first.
unfoldable pub queued_calls : ℕ → List TimelockCall → List Sent → List Sent
queued_calls n [] earlier = earlier
queued_calls n (call ∷ calls) earlier =
    queued_calls (suc n) calls (Sent.by_timelock (Effect.queue call) n ∷ earlier)

-- The chain accepts each of the calls, with the nonces from `n` on, after those before it.
abbrev pub AreAccepted : Chain → ℕ → List TimelockCall → List Sent → Type 0
AreAccepted c n [] earlier = Unit
AreAccepted c n (call ∷ calls) earlier =
    (c.rejects (Sent.by_timelock (Effect.queue call) n) earlier ≡ none)
    × AreAccepted c (suc n) calls (Sent.by_timelock (Effect.queue call) n ∷ earlier)

module _ (c : Chain) (admin : IsAdmin c) where
  abbrev pub kept : Request → Transaction
  kept r = transaction c.services r ""

  queue_and_keep-returns :
      (r : Request) (call : TimelockCall) (s : State)
      → call_of c.services r ≡ ok call
      → c.rejects (Sent.by_timelock (Effect.queue call) s.nonce) s.sent ≡ none
      → queue_and_keep c r s ≡ (
        record s {
          nonce = suc s.nonce;
          sent = Sent.by_timelock (Effect.queue call) s.nonce ∷ s.sent;
          timelock_transactions = s.timelock_transactions ++ (kept r ∷ []);
        },
        ok tt,
      )
  unfolding queue_and_keep queue take_nonce send push_transaction queue_transaction queue_directly
  queue_and_keep-returns r call s encoded accepted = rw (admin, encoded, accepted) refl

  for_each-queues {ℓ} :
      {A : Type ℓ} (request : A → Request) (xs : List A) (calls : List TimelockCall) (s : State)
      → traverse (call_of c.services) (map request xs) ≡ ok calls
      → AreAccepted c s.nonce calls s.sent
      → for_each (λ x. queue_and_keep c (request x)) xs s ≡ (
        record s {
          nonce = length xs + s.nonce;
          sent = queued_calls s.nonce calls s.sent;
          timelock_transactions = s.timelock_transactions ++ map kept (map request xs);
        },
        ok tt,
      )
  unfolding queued_calls
  for_each-queues request [] calls s encoded accepted =
      let p : 0 + s.nonce ≡ s.nonce = omega arith in
      let none_left : [] ≡ calls = ok_injective encoded in
      rw (← none_left, p, append-nil s.timelock_transactions) refl
  for_each-queues request (x ∷ xs) calls s encoded accepted =
      let (call, here, encoded₁) = >>=-eq-ok (call_of c.services (request x)) _ encoded in
      let (later, rest, encoded₂) =
        >>=-eq-ok (traverse (call_of c.services) (map request xs)) _ encoded₁ in
      let split : (call ∷ later) ≡ calls = ok_injective encoded₂ in
      let both : AreAccepted c s.nonce (call ∷ later) s.sent = rw (← split) at accepted in
      let p : suc (length xs) + s.nonce ≡ length xs + suc s.nonce = omega arith in
      let next : State = record s {
        nonce = suc s.nonce;
        sent = Sent.by_timelock (Effect.queue call) s.nonce ∷ s.sent;
        timelock_transactions = s.timelock_transactions ++ (kept (request x) ∷ []);
      } in
      rw
        (
          ← split,
          queue_and_keep-returns (request x) call s here both.0,
          for_each-queues request xs later next rest both.1,
          p,
          append_assoc s.timelock_transactions (kept (request x) ∷ []) (map kept (map request xs)),
        )
        refl

  -- If every worker is found and every input is complete, the deployer is the admin of the timelock,
  -- the parameters of each request can be encoded, and the chain accepts each of these transactions
  -- at its turn, then set-reinvest-config.ts returns. It has queued one transaction for each input,
  -- in the order of the inputs and with nonces that count up from the number of transactions sent
  -- before, and the file lists these transactions in that order.
  pub set_reinvest_config-queues :
      (title eta : String) (inputs : List WorkerReinvestConfigInput) (s : State)
      (configs : List WorkerReinvestConfig) (calls : List TimelockCall)
      → traverse (reinvest_config c.parse_ether s.config) inputs ≡ ok configs
      → traverse (call_of c.services) (map (reinvest_request c.chain_id eta) configs) ≡ ok calls
      → AreAccepted c (c.transaction_count s.sent) calls s.sent
      → (t : State) × (set_reinvest_config c title eta inputs s ≡ (t, ok tt))
        × (t.sent ≡ queued_calls (c.transaction_count s.sent) calls s.sent)
        × (lookup title t.json_files
            ≡ some (
                s.timelock_transactions
                ++ map
                    (λ r. transaction c.services r "")
                    (map (reinvest_request c.chain_id eta) configs)))
  unfolding set_reinvest_config read_nonce write_json
  set_reinvest_config-queues title eta inputs s configs calls completed encoded accepted =
      let request = reinvest_request c.chain_id eta in
      let start : State = record s { nonce = c.transaction_count s.sent } in
      let written = s.timelock_transactions ++ map kept (map request configs) in
      (
        record start {
          nonce = length configs + c.transaction_count s.sent;
          sent = queued_calls (c.transaction_count s.sent) calls s.sent;
          timelock_transactions = written;
          json_files = insert title written s.json_files;
        },
        rw (completed, for_each-queues request configs calls start encoded accepted) refl,
        refl,
        lookup-insert title title written s.json_files ∙ here title (lookup title s.json_files),
      )
    where
      here :
          {v : List Transaction} (key : String) (o : Option (List Transaction))
          → (if key === key then some v else o) ≡ some v
      here key o = rw (eq_refl key) refl
