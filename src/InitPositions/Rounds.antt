-- ===== src/InitPositions/Rounds.antt =====
-- The loop of init-positions-v2.ts over its inputs, which are arguments here.
use bsc_alpaca_contract.Prelude.{◌-◌, ◌^◌, String, ◌&&◌, ◌==◌, List, [], ◌∷◌, some, if◌then◌else◌}
use bsc_alpaca_contract.Config.{Tokens}
use bsc_alpaca_contract.ConfigFile.Settings.{set_delta_neutral_vaults_init_position_ids}
use bsc_alpaca_contract.Script.{
  Atom, Value, Chain, Script, ◌>>=◌, ◌>>◌, return, lift, get, for_each, read_nonce, call_numbered,
  save_config,
}
use bsc_alpaca_contract.InitPositions.Amounts.{ℤ}
use bsc_alpaca_contract.InitPositions.Deposit.{
  Amount, InitPositionInput, Answers, Checked, is_above, native_amount, prepared, checked,
}

module _ (c : Chain) (a : Answers) where
  abbrev number : ℤ → Value
  number n = Value.atom (Atom.json (a.number_text n))

  -- the allowance of a token whose amount is above zero
  unfoldable pub approve_if_needed : Amount → String → String → Script (Unit {0})
  approve_if_needed amount token vault = do
    s ← get
    if is_above amount && (a.allowance token vault s.sent == 0)
        then call_numbered c token "approve"
            (Value.atom (Atom.text vault) ∷ number (ℤ.pos (2 ^ 256 - 1)) ∷ [])
        else return tt

  -- `openPosition`: the value sent along is the last argument
  unfoldable pub open_position : InitPositionInput → Checked a → Script (Unit {0})
  open_position i v = do
    s ← get
    p ← lift (prepared a s.config.oracle.delta_neutral_oracle i v)
    call_numbered c v.vault.address "initPositions" (
        number p.long
        ∷ number p.short
        ∷ number (ℤ.pos 0)
        ∷ Value.atom (Atom.text p.bytes)
        ∷ number (native_amount (a.wrapped_native v.vault.config) v.vault p.long p.short)
        ∷ [])

  -- one round of the loop over the inputs; `tokens` is read before the loop
  unfoldable pub init_position : Tokens → InitPositionInput → Script (Unit {0})
  init_position tokens i = do
    s ← get
    v ← lift (checked a s tokens i)
    approve_if_needed i.long_deposit_amount v.tokens.0 v.vault.address
    approve_if_needed i.short_deposit_amount v.tokens.1 v.vault.address
    open_position i v
    t ← get
    save_config (
        set_delta_neutral_vaults_init_position_ids i.symbol
          (a.stable_vault_pos_id v.vault.address t.sent)
          (some (a.asset_vault_pos_id v.vault.address t.sent)))

  unfoldable pub init_positions : List InitPositionInput → Script (Unit {0})
  init_positions inputs = do s ← get; read_nonce c; for_each (init_position s.config.tokens) inputs
