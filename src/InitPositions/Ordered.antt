-- ===== src/InitPositions/Ordered.antt =====
-- The nonces of the transactions that init-positions-v2.ts sends.
use bsc_alpaca_contract.Prelude.{List, String}
use bsc_alpaca_contract.Config.{Tokens}
use bsc_alpaca_contract.Script.{Chain, State}
use bsc_alpaca_contract.Script.Triples.{
  Triple, Triple-then, Triple-get, Triple-lift, Triple-return, Triple-for_each, Triple-if,
  Triple-consequence, Triple-always,
}
use bsc_alpaca_contract.Script.Order.{
  IsInOrder, IsCurrent, IsSentInOrder, Counts, read_nonce-IsCurrent, call_numbered-IsCurrent,
  save_config-IsCurrent,
}
use bsc_alpaca_contract.InitPositions.Deposit.{
  Amount, Answers, InitPositionInput, Checked, prepared, checked,
}
use bsc_alpaca_contract.InitPositions.Rounds.{
  approve_if_needed, open_position, init_position, init_positions,
}

module _ (c : Chain) (a : Answers) (counts : Counts c) where
  fails : (s : State) → IsCurrent c s → IsSentInOrder c s
  fails s p = p.1

  approve_if_needed-IsCurrent :
      (amount : Amount) (token vault : String)
      → Triple
          (IsSentInOrder c)
          (IsCurrent c)
          (approve_if_needed c a amount token vault)
          (IsCurrent c)
  unfolding approve_if_needed
  approve_if_needed-IsCurrent amount token vault =
      Triple-then Triple-get
        (λ s. Triple-if _ (call_numbered-IsCurrent c counts token _ _) (Triple-return tt))

  open_position-IsCurrent :
      (i : InitPositionInput) (v : Checked a)
      → Triple (IsSentInOrder c) (IsCurrent c) (open_position c a i v) (IsCurrent c)
  unfolding open_position
  open_position-IsCurrent i v = Triple-then Triple-get (λ s.
      Triple-then (Triple-lift (prepared a s.config.oracle.delta_neutral_oracle i v) fails)
        (λ p. call_numbered-IsCurrent c counts v.vault.address _ _))

  init_position-IsCurrent :
      (tokens : Tokens) (i : InitPositionInput)
      → Triple (IsSentInOrder c) (IsCurrent c) (init_position c a tokens i) (IsCurrent c)
  unfolding init_position
  init_position-IsCurrent tokens i = Triple-then Triple-get (λ s.
      Triple-then (Triple-lift (checked a s tokens i) fails) (λ v.
        Triple-then (approve_if_needed-IsCurrent i.long_deposit_amount v.tokens.0 v.vault.address)
          (λ approved.
            Triple-then
              (approve_if_needed-IsCurrent i.short_deposit_amount v.tokens.1 v.vault.address)
              (λ both.
                Triple-then (open_position-IsCurrent i v)
                  (λ opened. Triple-then Triple-get (λ t. save_config-IsCurrent c _))))))

  -- If the chain counts each call of the deployer, then init-positions-v2.ts, which reads the number
  -- of transactions once and counts up over all of its inputs, gives no transaction another nonce
  -- than the number of transactions sent before it, whether or not a token has to be approved, and
  -- whether it returns or throws.
  pub init_positions-IsInOrder :
      (inputs : List InitPositionInput) (s : State)
      → IsInOrder c s.sent
      → IsInOrder c (init_positions c a inputs s).0.sent
  unfolding init_positions
  init_positions-IsInOrder inputs s p =
      Triple-always (init_positions c a inputs)
        (Triple-consequence
          (Triple-then Triple-get (λ t.
            Triple-then (read_nonce-IsCurrent c)
              (λ read. Triple-for_each _ inputs (init_position-IsCurrent t.config.tokens))))
          fails)
        s p
