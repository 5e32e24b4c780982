-- ===== src/Script/Refused.antt =====
-- Statements that throw, since the chain refuses a nonce that was used before.
use bsc_alpaca_contract.Prelude.{
  ℕ, suc, String, List, ◌∷◌, Option, none, some, Result, ok, throw, ◌≡◌, refl, sym, ap, ◌∙◌, ◌<◌,
  ok≢throw,
}
use bsc_alpaca_contract.Script.{
  Sent, Value, Chain, State, Script, after, send_unless, send, call_contract, call_numbered,
  take_nonce,
}
use bsc_alpaca_contract.Script.Order.{Counts}

pub record IsThrow {ℓ} {A : Type ℓ} (r : State × Result A) : Type ℓ where
  pub message : String
  pub thrown : r.1 ≡ throw message

-- What holds of the state if the statement returned.
abbrev pub Returned {ℓ} : {A : Type ℓ} → (State → Type 0) → State × Result A → Type 0
Returned Q (t, ok value) = Q t
Returned Q (t, throw message) = Unit

pub after-IsThrow {ℓ κ} :
    {A : Type ℓ} {B : Type κ} (Q : State → Type 0) (r : State × Result A) (next : A → Script B)
    → Returned Q r
    → ((value : A) (t : State) → Q t → IsThrow (next value t))
    → IsThrow (after r next)
after-IsThrow Q (t, throw message) next h rest = record { message = message; thrown = refl }
after-IsThrow Q (t, ok value) next h rest = rest value t h

-- A statement after one that throws is not reached.
pub after_lem {ℓ κ} :
    {A : Type ℓ} {B : Type κ} (r : State × Result A) (next : A → Script B)
    → IsThrow r
    → IsThrow (after r next)
after_lem (t, throw message) next h = record { message = message; thrown = refl }
after_lem (t, ok value) next h = absurd (ok≢throw h.thrown)

pub Returned-any {ℓ} : {A : Type ℓ} (r : State × Result A) → Returned (λ s. Unit) r
Returned-any (t, ok value) = tt
Returned-any (t, throw message) = tt

pub Returned-send_unless :
    (r : Option String) (x : Sent) (s : State) (Q : State → Type 0)
    → Q (record s { sent = x ∷ s.sent })
    → Returned Q (send_unless r x s)
Returned-send_unless none x s Q q = q
Returned-send_unless (some message) x s Q q = tt

module _ (c : Chain) (counts : Counts c) where
  -- A transaction with the nonce of an earlier one is not accepted.
  abbrev pub RefusesUsed : Type 0
  RefusesUsed =
      (to method : String) (args : List Value) (n : ℕ) (earlier : List Sent)
      → n < c.transaction_count earlier
      → (message : String) × (c.rejects (Sent.call to method args (some n)) earlier ≡ some message)

  pub Returned-call_contract :
      (to method : String) (args : List Value) (s : State) (k : ℕ)
      → k ≡ c.transaction_count s.sent
      → Returned
          (λ t. (t.nonce ≡ s.nonce) × (suc k ≡ c.transaction_count t.sent))
          (call_contract c to method args s)
  unfolding call_contract send
  Returned-call_contract to method args s k h =
      let x = Sent.call to method args none in
      Returned-send_unless (c.rejects x s.sent) x s
        (λ t. (t.nonce ≡ s.nonce) × (suc k ≡ c.transaction_count t.sent))
        (refl, ap suc h ∙ sym (counts.count-call to method args none s.sent))

  pub call_numbered-IsThrow :
      (to method : String) (args : List Value) (s : State)
      → RefusesUsed
      → s.nonce < c.transaction_count s.sent
      → IsThrow (call_numbered c to method args s)
  unfolding call_numbered take_nonce send
  call_numbered-IsThrow to method args s refuses old =
      let (message, rejected) = refuses to method args s.nonce s.sent old in
      record { message = message; thrown = rw rejected refl }
