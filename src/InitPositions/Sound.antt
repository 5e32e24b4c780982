-- ===== src/InitPositions/Sound.antt =====
-- What the checks of init-positions-v2.ts guarantee of an input.
use bsc_alpaca_contract.Prelude.{
  ℕ, ◌≤◌, String, Bool, true, false, not, leb, ◌===◌, List, Option, none, some, ok, ◌≡◌, refl,
  guard, require, find, lookup, >>=-eq-ok, guard-true, differ, find-holds, inl, inr, ok_injective,
  eq_iff, ◌≡◌, if◌then◌else◌, arith, sym, ◌⊎◌,
}
use bsc_alpaca_contract.Address.{compare}
use bsc_alpaca_contract.Config.{Tokens, VaultsEntity}
use bsc_alpaca_contract.Script.{State}
use bsc_alpaca_contract.InitPositions.Checks.{
  agrees, check_token, check_expected, validate_delta_neutral_vault_by_symbol,
  validate_delta_neutral_token_by_symbol,
}
use bsc_alpaca_contract.InitPositions.Deposit.{
  Amount, Answers, InitPositionInput, Checked, amounts_ok, decimal_of, strategies, checked,
}

abbrev pub IsBelow : Amount → Type 0
IsBelow amount = (digits : String) × (amount ≡ Amount.below_zero digits)

abbrev pub IsAbove : Amount → Type 0
IsAbove amount = (digits : String) × (amount ≡ Amount.above_zero digits)

-- A symbol that is given, and not empty.
abbrev pub IsGiven : String → Type 0
IsGiven symbol = (symbol === "") ≡ false

-- The symbol that is expected of what has the symbol `actual`.
abbrev pub HasSymbol : Option String → String → Type 0
HasSymbol none actual = Unit
HasSymbol (some symbol) actual = IsGiven symbol → actual ≡ symbol

-- The list has the address under the symbol that is expected.
abbrev pub IsListedAs : Tokens → String → Option String → Type 0
IsListedAs tokens target none = Unit
IsListedAs tokens target (some symbol) =
    IsGiven symbol
    → (token : String) × (lookup symbol tokens ≡ some token) × (compare target token ≡ true)

-- The first token at the address has the symbol that is expected, and stands under it in the list.
abbrev pub IsExpected : Tokens → String → Option String → Type 0
IsExpected tokens target expected =
    (entry : String × String) × (find (λ d. compare d.1 target) tokens ≡ some entry)
    × HasSymbol expected entry.0
    × IsListedAs tokens target expected

-- The first of the vaults at the address, with the symbol that is expected of it.
abbrev pub IsVault : List VaultsEntity → VaultsEntity → String → Option String → Type 0
IsVault vaults v target expected =
    (find (λ u. compare u.address target) vaults ≡ some v) × HasSymbol expected v.symbol

amounts_lem :
    (long short : Amount)
    → amounts_ok long short ≡ true
    → ¬ IsBelow long × ¬ IsBelow short × (IsAbove long ⊎ IsAbove short)
unfolding amounts_ok
amounts_lem (Amount.below_zero d) short h = cc
amounts_lem Amount.at_zero (Amount.below_zero e) h = cc
amounts_lem Amount.at_zero Amount.at_zero h = cc
amounts_lem Amount.at_zero (Amount.above_zero e) h =
    ((λ (d, same). cc), (λ (d, same). cc), inr (e, refl))
amounts_lem (Amount.above_zero d) (Amount.below_zero e) h = cc
amounts_lem (Amount.above_zero d) Amount.at_zero h =
    ((λ (e, same). cc), (λ (e, same). cc), inl (d, refl))
amounts_lem (Amount.above_zero d) (Amount.above_zero e) h =
    ((λ (b, same). cc), (λ (b, same). cc), inl (d, refl))

required {ℓ} :
    {A : Type ℓ} (message : String) (o : Option A) {x : A} → require message o ≡ ok x → o ≡ some x
required message none h = cc
required message (some y) h = cc

-- the branch that a test has led to
taken {ℓ} :
    {A : Type ℓ} (b : Bool) {x y r : A}
    → (if b then x else y) ≡ r
    → ((b ≡ true) × (x ≡ r)) ⊎ ((b ≡ false) × (y ≡ r))
taken true h = inl (refl, h)
taken false h = inr (refl, h)

leb→le : (m n : ℕ) → leb m n ≡ true → m ≤ n
leb→le m n h = ground arith

agrees-HasSymbol :
    (expected : Option String) (actual : String)
    → agrees expected actual ≡ true
    → HasSymbol expected actual
agrees-HasSymbol none actual h = tt
agrees-HasSymbol (some symbol) actual h = λ given.
    let same : (symbol === actual) ≡ true = rw given at h in sym ((eq_iff symbol actual).0 same)

check_token-expected :
    (tokens : Tokens) (target actual symbol : String) {t : String}
    → check_token tokens target actual symbol ≡ ok t
    → (t ≡ target)
      × (actual ≡ symbol)
      × (token : String) × (lookup symbol tokens ≡ some token)
      × (compare target token ≡ true)
unfolding check_token
check_token-expected tokens target actual symbol h =
    let (token, got, h₁) = >>=-eq-ok (require _ (lookup symbol tokens)) _ h in
    let (_, _, h₂) = >>=-eq-ok (guard (not (token === "")) _) _ h₁ in
    let (_, named, h₃) = >>=-eq-ok (guard (actual === symbol) _) _ h₂ in
    let (_, same, h₄) = >>=-eq-ok (guard (compare target token) _) _ h₃ in
    (
      sym (ok_injective h₄),
      (eq_iff actual symbol).0 (guard-true _ _ named),
      token,
      required _ _ got,
      guard-true _ _ same,
    )

check_expected-listed :
    (tokens : Tokens) (target actual : String) (expected : Option String) {t : String}
    → check_expected tokens target actual expected ≡ ok t
    → (t ≡ target) × HasSymbol expected actual × IsListedAs tokens target expected
check_expected-listed tokens target actual none h = (sym (ok_injective h), tt, tt)
check_expected-listed tokens target actual (some symbol) h = elim (taken (symbol === "") h) [
  | inl (empty, same) ↦ (
    sym (ok_injective same),
    (λ given. absurd (differ empty given)),
    (λ given. absurd (differ empty given)),
  )
  | inr (given, later) ↦
      let (same, named, token, listed, equal) =
        check_token-expected tokens target actual symbol later in
      (same, (λ _. named), (λ _. (token, listed, equal)))
]

token-IsExpected :
    (tokens : Tokens) (target : String) (expected : Option String) {t : String}
    → validate_delta_neutral_token_by_symbol tokens target expected ≡ ok t
    → (t ≡ target) × IsExpected tokens target expected
unfolding validate_delta_neutral_token_by_symbol
token-IsExpected tokens target expected h =
    let (entry, got, h₁) = >>=-eq-ok (require _ (find (λ d. compare d.1 target) tokens)) _ h in
    let (same, named, listed) = check_expected-listed tokens target entry.0 expected h₁ in
    (same, (entry, required _ _ got, named, listed))

validated-IsVault :
    (vaults : List VaultsEntity) (target : String) (expected : Option String) {v : VaultsEntity}
    → validate_delta_neutral_vault_by_symbol vaults target expected ≡ ok v
    → IsVault vaults v target expected
unfolding validate_delta_neutral_vault_by_symbol
validated-IsVault vaults target expected h =
    let (w, got, h₁) = >>=-eq-ok (require _ (find (λ u. compare u.address target) vaults)) _ h in
    let (_, agreed, h₂) = >>=-eq-ok (guard (agrees expected w.symbol) _) _ h₁ in
    rw (← (ok_injective h₂))
      (required _ _ got, agrees-HasSymbol expected w.symbol (guard-true _ _ agreed))

module _ (a : Answers) where
  decimal_of-le :
      (side token : String) {n : ℕ}
      → decimal_of a side token ≡ ok n
      → (n ≡ a.decimals token) × (n ≤ 18)
  decimal_of-le side token h =
      let (_, small, same) = >>=-eq-ok (guard (leb (a.decimals token) 18) _) _ h in
      rw (← (ok_injective same)) (refl, leb→le (a.decimals token) 18 (guard-true _ _ small))

  -- What holds of an input that the checks have let pass.
  pub record IsSound (s : State) (tokens : Tokens) (i : InitPositionInput) (v : Checked a)
      : Type 0 where
    pub long_amount : ¬ IsBelow i.long_deposit_amount
    pub short_amount : ¬ IsBelow i.short_deposit_amount
    pub some_amount : IsAbove i.long_deposit_amount ⊎ IsAbove i.short_deposit_amount
    pub named : v.vault.symbol ≡ i.symbol
    pub listed : find (λ u. u.symbol === i.symbol) s.config.delta_neutral_vaults ≡ some v.vault
    pub long_vault :
        (w : VaultsEntity) × IsVault s.config.vaults w v.vault.stable_vault
          i.expected_long_vault_symbol
    pub short_vault :
        (w : VaultsEntity) × IsVault s.config.vaults w v.vault.asset_vault
          i.expected_short_vault_symbol
    pub long_token : v.tokens.0 ≡ v.vault.stable_token
    pub long_expected : IsExpected tokens v.vault.stable_token i.expected_long_token_symbol
    pub short_token : v.tokens.1 ≡ v.vault.asset_token
    pub short_expected : IsExpected tokens v.vault.asset_token i.expected_short_token_symbol
    pub long_decimals : (v.decimals.base ≡ a.decimals v.tokens.0) × (v.decimals.base ≤ 18)
    pub short_decimals : (v.decimals.farming ≡ a.decimals v.tokens.1) × (v.decimals.farming ≤ 18)

  -- If the checks of an input pass, then neither amount is below zero and one is above; the vault is
  -- the first of the configuration with the symbol of the input; the first vault of the configuration
  -- at the address of its stable vault has the expected symbol, if one is given, and so has that of
  -- its asset vault; the two tokens are its stable and its asset token, which are listed, each first
  -- under the expected symbol, if one is given, with the same address under that symbol; and the
  -- decimals are those that the tokens answer, and not more than 18.
  pub checked-IsSound :
      (s : State) (tokens : Tokens) (i : InitPositionInput) (v : Checked a)
      → checked a s tokens i ≡ ok v
      → IsSound s tokens i v
  unfolding checked
  checked-IsSound s tokens i v h =
      let (_, amounts, h₁) =
        >>=-eq-ok (guard (amounts_ok i.long_deposit_amount i.short_deposit_amount) _) _ h in
      let (vault, got, h₂) =
        >>=-eq-ok (require _ (find (λ u. u.symbol === i.symbol) s.config.delta_neutral_vaults)) _
          h₁ in
      let (w, long, h₃) = >>=-eq-ok (validate_delta_neutral_vault_by_symbol _ _ _) _ h₂ in
      let (u, short, h₄) = >>=-eq-ok (validate_delta_neutral_vault_by_symbol _ _ _) _ h₃ in
      let (lt, long_token, h₅) = >>=-eq-ok (validate_delta_neutral_token_by_symbol _ _ _) _ h₄ in
      let (st, short_token, h₆) = >>=-eq-ok (validate_delta_neutral_token_by_symbol _ _ _) _ h₅ in
      let (m, long_small, h₇) = >>=-eq-ok (decimal_of a "Long" lt) _ h₆ in
      let (n, short_small, h₈) = >>=-eq-ok (decimal_of a "Short" st) _ h₇ in
      let (strats, _, same) = >>=-eq-ok (strategies i.symbol w u) _ h₈ in
      let long_listed =
        token-IsExpected tokens vault.stable_token i.expected_long_token_symbol long_token in
      let short_listed =
        token-IsExpected tokens vault.asset_token i.expected_short_token_symbol short_token in
      let signs =
        amounts_lem i.long_deposit_amount i.short_deposit_amount (guard-true _ _ amounts) in
      let at_symbol = required _ _ got in
      rw (sym (ok_injective same)) (record {
        long_amount = signs.0;
        short_amount = signs.1;
        some_amount = signs.2;
        named =
            (eq_iff vault.symbol i.symbol).0 (find-holds _ s.config.delta_neutral_vaults at_symbol);
        listed = at_symbol;
        long_vault = (w, validated-IsVault _ _ i.expected_long_vault_symbol long);
        short_vault = (u, validated-IsVault _ _ i.expected_short_vault_symbol short);
        long_token = long_listed.0;
        long_expected = long_listed.1;
        short_token = short_listed.0;
        short_expected = short_listed.1;
        long_decimals = decimal_of-le "Long" lt long_small;
        short_decimals = decimal_of-le "Short" st short_small;
      })
