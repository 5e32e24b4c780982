-- ===== src/Timelock/Authorized.antt =====
-- Who queues a transaction of the timelock, and what is sent.
use bsc_alpaca_contract.Prelude.{
  ℕ, zero, suc, String, true, Option, none, some, ok, throw, guard, require, ◌==◌, ==_iff, ◌≡◌,
  refl, ap, sym, ◌∙◌, ok≢throw, ◌⊎◌, inl, inr, Bool-cases, >>=-eq-ok, ok_injective, guard-true,
}
use bsc_alpaca_contract.Address.{compare}
use bsc_alpaca_contract.Timelock.{
  Services, Request, Effect, Transaction, call_of, if_nonzero, nonce_or_next, propose_transaction,
  queue_by_multi_sig, queue_directly, queue_transaction, TimelockCall,
}

if_nonzero_twice : (nonce : Option ℕ) → if_nonzero (if_nonzero nonce) ≡ if_nonzero nonce
unfolding if_nonzero
if_nonzero_twice none = refl
if_nonzero_twice (some zero) = refl
if_nonzero_twice (some (suc n)) = refl

module _ (s : Services) where
  -- The deployer is the admin, and queues the call itself.
  abbrev pub IsDirect : Request → Effect → Type 0
  IsDirect r effect =
      (call : TimelockCall) × (compare s.timelock_admin s.deployer ≡ true)
      × (call_of s r ≡ ok call)
      × (effect ≡ Effect.queue call)

  -- The multisig is the admin, and a wallet that is the deployer's proposes the call to it on the
  -- BNB chain, with the nonce given if that is not zero and the next nonce otherwise.
  abbrev pub IsProposed : Request → Option ℕ → Effect → Type 0
  IsProposed r nonce effect =
      (wallet : String) × (call : TimelockCall) × (which_nonce : ℕ) × (compare s.timelock_admin
          s.op_multi_sig
        ≡ true)
      × (s.wallet ≡ some wallet)
      × (compare wallet s.deployer ≡ true)
      × (r.chain_id ≡ 56)
      × (call_of s r ≡ ok call)
      × (nonce_or_next s (if_nonzero nonce) ≡ ok which_nonce)
      × (effect ≡ Effect.propose s.timelock "0" call which_nonce)

  require-some :
      (o : Option String) (message : String) {w : String} → require message o ≡ ok w → o ≡ some w
  require-some none message h = cc
  require-some (some v) message h = ap some (ok_injective h)

  queue_by_multi_sig-IsProposed :
      (r : Request) (nonce : Option ℕ) {effect : Effect} {tx : Transaction}
      → compare s.timelock_admin s.op_multi_sig ≡ true
      → queue_by_multi_sig s r nonce ≡ ok (effect, tx)
      → IsProposed r nonce effect
  unfolding queue_by_multi_sig propose_transaction
  queue_by_multi_sig-IsProposed r nonce {effect} admin made =
      let (wallet, key, made₁) = >>=-eq-ok (require _ s.wallet) _ made in
      let (_, same, made₂) = >>=-eq-ok (guard (compare wallet s.deployer) _) _ made₁ in
      let (_, bnb, made₃) = >>=-eq-ok (guard (r.chain_id == 56) _) _ made₂ in
      let (call, encoded, made₄) = >>=-eq-ok (call_of s r) _ made₃ in
      let (proposed, asked, made₅) =
        >>=-eq-ok (propose_transaction s s.timelock "0" call (if_nonzero nonce)) _ made₄ in
      let (which_nonce, chosen, made₆) =
        >>=-eq-ok (nonce_or_next s (if_nonzero (if_nonzero nonce))) _ asked in
      let (tx_hash, _, made₇) = >>=-eq-ok (s.safe_tx_hash _) _ made₆ in
      (
        wallet,
        call,
        which_nonce,
        admin,
        require-some s.wallet _ key,
        guard-true _ _ same,
        (==_iff r.chain_id 56).0 (guard-true _ _ bnb),
        encoded,
        sym (ap (nonce_or_next s) (if_nonzero_twice nonce)) ∙ chosen,
        sym (ap (λ p. p.0) (ok_injective made₅)) ∙ sym (ap (λ p. p.0) (ok_injective made₇)),
      )

  queue_directly-IsDirect :
      (r : Request) {effect : Effect} {tx : Transaction}
      → compare s.timelock_admin s.deployer ≡ true
      → queue_directly s r ≡ ok (effect, tx)
      → IsDirect r effect
  unfolding queue_directly
  queue_directly-IsDirect r direct made =
      let (call, encoded, made₁) = >>=-eq-ok (call_of s r) _ made in
      (call, direct, encoded, sym (ap (λ p. p.0) (ok_injective made₁)))

  -- If `queueTransaction` returns, then either the timelock's admin is the deployer and the call is
  -- queued by it, or the admin is the multisig, the key in the environment is the deployer's, the
  -- chain is 56, and the call is proposed to the multisig. The proposal has the nonce that was given
  -- if it is not zero, and the next nonce of the safe otherwise.
  pub queue_transaction-authorized :
      (r : Request) (nonce : Option ℕ) (effect : Effect) (tx : Transaction)
      → queue_transaction s r nonce ≡ ok (effect, tx)
      → IsDirect r effect ⊎ IsProposed r nonce effect
  unfolding queue_transaction
  queue_transaction-authorized r nonce effect tx made =
      elim (Bool-cases (compare s.timelock_admin s.deployer)) [
        | inl direct ↦
            let queued : queue_directly s r ≡ ok (effect, tx) = rw direct at made in
            inl (queue_directly-IsDirect r direct queued)
        | inr other ↦ elim (Bool-cases (compare s.timelock_admin s.op_multi_sig)) [
          | inl multi_sig ↦
              let proposed : queue_by_multi_sig s r nonce ≡ ok (effect, tx) =
                rw (other, multi_sig) at made in
              inr (queue_by_multi_sig-IsProposed r nonce multi_sig proposed)
          | inr neither ↦
              let thrown : throw "Timelock's admin is not deployer or OpMultiSig"
                  ≡ ok (effect, tx) =
                rw (other, neither) at made in
              absurd (ok≢throw (sym thrown))
        ]
      ]
