-- ===== src/Script/Order.antt =====
-- The nonces of the deployer's transactions, as a property of the states that a script goes through.
use bsc_alpaca_contract.Prelude.{
  ℕ, suc, String, List, [], ◌∷◌, Option, none, some, some_injective, Result, ok, throw, >>=-eq-ok,
  ok_injective, true, ◌≡◌, refl, sym, ap, ◌∙◌,
}
use bsc_alpaca_contract.Address.{compare}
use bsc_alpaca_contract.ConfigFile.{ConfigFileHelper}
use bsc_alpaca_contract.Timelock.{
  Request, TimelockCall, Effect, call_of, queue_transaction, queue_directly, Transaction,
}
use bsc_alpaca_contract.Script.{
  Value, Sent, Chain, State, send_unless, return, take_nonce, send, call_numbered, call_contract,
  read_nonce, deploy, queue, save_config, after, ◌>>◌,
}
use bsc_alpaca_contract.Script.Triples.{
  Triple, Triple-then, Triple-get, Triple-lift, Triple-return, Outcome, Outcome-send_unless,
  Outcome-after,
}

-- the nonce that a transaction was sent with, if one was given
abbrev pub nonce_of : Sent → Option ℕ
nonce_of (Sent.deployment contract name args) = none
nonce_of (Sent.call to method args nonce) = nonce
nonce_of (Sent.by_timelock effect nonce) = some nonce

some-none : (n : ℕ) → some n ≡ none → ⊥
some-none n h = cc

module _ (c : Chain) where
  -- A nonce that was given is the number of transactions that the account had sent before.
  abbrev pub IsNext : Sent → List Sent → Type 0
  IsNext x earlier = (n : ℕ) → nonce_of x ≡ some n → n ≡ c.transaction_count earlier

  -- Every transaction was sent with the nonce that the chain expected.
  abbrev pub IsInOrder : List Sent → Type 0
  IsInOrder [] = Unit
  IsInOrder (x ∷ earlier) = IsNext x earlier × IsInOrder earlier

  abbrev pub IsSentInOrder : State → Type 0
  IsSentInOrder s = IsInOrder s.sent

  -- The variable `nonce` is the nonce that the chain expects next.
  abbrev pub IsCurrent : State → Type 0
  IsCurrent s = (s.nonce ≡ c.transaction_count s.sent) × IsInOrder s.sent

  -- A transaction without a nonce is in order anywhere.
  send-IsInOrder :
      (x : Sent) → nonce_of x ≡ none → Triple IsSentInOrder IsSentInOrder (send c x) IsSentInOrder
  unfolding send
  send-IsInOrder x plain = record {
    runs = λ s p.
        Outcome-send_unless IsSentInOrder IsSentInOrder (c.rejects x s.sent) x s p
          (λ n h. absurd (some-none n (sym h ∙ plain)), p);
  }

  pub call_contract-IsInOrder :
      (to method : String) (args : List Value)
      → Triple IsSentInOrder IsSentInOrder (call_contract c to method args) IsSentInOrder
  unfolding call_contract
  call_contract-IsInOrder to method args = send-IsInOrder (Sent.call to method args none) refl

  pub read_nonce-IsCurrent : Triple IsSentInOrder IsSentInOrder (read_nonce c) IsCurrent
  unfolding read_nonce
  read_nonce-IsCurrent = record { runs = λ s p. (refl, p) }

  pub deploy-IsInOrder :
      (contract name : String) (args : List Value)
      → Triple IsSentInOrder IsSentInOrder (deploy c contract name args) IsSentInOrder
  unfolding deploy
  deploy-IsInOrder contract name args = Triple-then (Triple-lift _ (λ s p. p)) (λ defined.
      Triple-then Triple-get (λ s.
        Triple-then (send-IsInOrder (Sent.deployment contract name args) refl)
          (λ done. Triple-return _)))

  pub save_config-IsCurrent :
      (method : ConfigFileHelper → Result ConfigFileHelper)
      → Triple IsSentInOrder IsCurrent (save_config method) IsCurrent
  unfolding save_config
  save_config-IsCurrent method = Triple-then Triple-get (λ s.
      Triple-then (Triple-lift (method s.helper) (λ t p. p.1))
        (λ saved. record { runs = λ t p. p }))

  -- What the chain counts as a transaction of the deployer: each call, and each transaction of the
  -- timelock that the deployer queues itself.
  pub record Counts : Type 0 where
    pub count-call :
        (to method : String) (args : List Value) (nonce : Option ℕ) (earlier : List Sent)
        → c.transaction_count (Sent.call to method args nonce ∷ earlier)
          ≡ suc (c.transaction_count earlier)
    pub count-queue :
        (call : TimelockCall) (nonce : ℕ) (earlier : List Sent)
        → c.transaction_count (Sent.by_timelock (Effect.queue call) nonce ∷ earlier)
          ≡ suc (c.transaction_count earlier)

  -- The deployer is the admin of the timelock.
  abbrev pub IsAdmin : Type 0
  IsAdmin = compare c.services.timelock_admin c.services.deployer ≡ true

  module _ (counts : Counts) where
    pub call_numbered-IsCurrent :
        (to method : String) (args : List Value)
        → Triple IsSentInOrder IsCurrent (call_numbered c to method args) IsCurrent
    unfolding call_numbered take_nonce send
    call_numbered-IsCurrent to method args = record {
      runs = λ s p.
          let x = Sent.call to method args (some s.nonce) in
          Outcome-send_unless IsSentInOrder IsCurrent (c.rejects x s.sent) x
            (record s { nonce = suc s.nonce }) p.1
            (
              ap suc p.0 ∙ sym (counts.count-call to method args (some s.nonce) s.sent),
              ((λ n h. sym (some_injective h) ∙ p.0), p.1),
            );
    }

    -- What the deployer queues is a call, whose transaction then counts.
    queued_directly :
        (r : Request) (s : State)
        → s.nonce ≡ c.transaction_count s.sent
        → IsInOrder s.sent
        → (queued : Result (Effect × Transaction)) → queue_directly c.services r ≡ queued
        → Outcome IsSentInOrder IsCurrent (
            after
              (record s { nonce = suc s.nonce }, queued)
              (λ q. send c (Sent.by_timelock q.0 s.nonce) >> return q.1))
    unfolding queue_directly send
    queued_directly r s current ordered (throw message) made = ordered
    queued_directly r s current ordered (ok (effect, tx)) made =
        let (call, _, made₁) = >>=-eq-ok (call_of c.services r) _ made in
        let same : Effect.queue call ≡ effect = ap (λ q. q.0) (ok_injective made₁) in
        let x = Sent.by_timelock effect s.nonce in
        let next = record s { nonce = suc s.nonce } in
        Outcome-after IsSentInOrder IsCurrent IsCurrent (send_unless (c.rejects x s.sent) x next)
          (λ done. return tx)
          (Outcome-send_unless IsSentInOrder IsCurrent (c.rejects x s.sent) x next ordered (
            ap suc current
                ∙ (sym (counts.count-queue call s.nonce s.sent)
                    ∙ ap (λ e. c.transaction_count (Sent.by_timelock e s.nonce ∷ s.sent)) same),
            ((λ n h. sym (some_injective h) ∙ current), ordered),
          ))
          (λ done. Triple-return _)

    queue_transaction-direct :
        (r : Request) (nonce : Option ℕ)
        → IsAdmin
        → queue_transaction c.services r nonce ≡ queue_directly c.services r
    unfolding queue_transaction
    queue_transaction-direct r requested admin = rw admin refl

    pub queue-IsCurrent :
        (r : Request) → IsAdmin → Triple IsSentInOrder IsCurrent (queue c r) IsCurrent
    unfolding queue take_nonce
    queue-IsCurrent r admin = record {
      runs = λ s p.
          rw (queue_transaction-direct r (some s.nonce) admin)
            (queued_directly r s p.0 p.1 (queue_directly c.services r) refl);
    }
