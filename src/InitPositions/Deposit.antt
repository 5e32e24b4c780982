-- ===== src/InitPositions/Deposit.antt =====
-- What init-positions-v2.ts reads and computes for an input, before its transactions.
use Prim.Native.String.{◌++◌ as str_append}
use bsc_alpaca_contract.Prelude.{
  ℕ, String, Bool, true, false, ◌===◌, leb, ◌>>=◌, ◌>>◌, List, Option, Result, ok, guard, require,
  find, lookup, includes, if◌then◌else◌,
}
use bsc_alpaca_contract.Address.{compare}
use bsc_alpaca_contract.Config.{Tokens, VaultsEntity, DeltaNeutralVaultsEntity}
use bsc_alpaca_contract.Script.{Sent, State}
use bsc_alpaca_contract.DeployWorkers.Steps.{connected}
use bsc_alpaca_contract.InitPositions.Amounts.{ℤ, DepositSide, TokenInput, Pair, get_token_input}
use bsc_alpaca_contract.InitPositions.Checks.{
  validate_delta_neutral_vault_by_symbol, validate_delta_neutral_token_by_symbol, exchange_of,
}

-- A number of the script, with what it prints as.
pub data Amount : Type 0 where
  below_zero : String → Amount
  at_zero : Amount
  above_zero : String → Amount

pub record InitPositionInput : Type 0 where
  pub symbol : String
  pub long_deposit_amount : Amount
  pub short_deposit_amount : Amount
  pub leverage : ℕ
  pub expected_long_vault_symbol : Option String
  pub expected_long_token_symbol : Option String
  pub expected_short_vault_symbol : Option String
  pub expected_short_token_symbol : Option String

pub record DepositWorkByte : Type 0 where
  pub pos_id : ℕ
  pub vault_address : String
  pub worker_address : String
  pub two_sides_strat : Option String
  pub principal_amount : ℤ
  pub borrow_amount : ℤ
  pub max_return : ℤ
  pub farming_token_amount : ℤ
  pub min_lp_receive : ℤ

-- What the tokens, the oracle and the vaults answer, and the functions of the library: an
-- allowance and the positions' ids depend on what was sent before.
pub record Answers : Type 0 where
  pub decimals : String → ℕ
  pub allowance : String → String → List Sent → ℕ
  pub token_price : String → String → ℤ
  pub wrapped_native : String → String
  pub stable_vault_pos_id : String → List Sent → String
  pub asset_vault_pos_id : String → List Sent → String
  pub from_number : ℕ → Result ℤ
  pub parse_units : String → ℕ → Result ℤ
  pub encode_work_byte : DepositWorkByte → Result String
  pub encode_deposit : String → String → String
  pub number_text : ℤ → String

abbrev pub printed : Amount → String
printed (Amount.below_zero s) = s
printed Amount.at_zero = "0"
printed (Amount.above_zero s) = s

-- the guard on the two amounts, passed
unfoldable pub amounts_ok : Amount → Amount → Bool
amounts_ok (Amount.below_zero s) short = false
amounts_ok Amount.at_zero (Amount.above_zero s) = true
amounts_ok Amount.at_zero short = false
amounts_ok (Amount.above_zero s) (Amount.below_zero t) = false
amounts_ok (Amount.above_zero s) short = true

abbrev pub is_above : Amount → Bool
is_above (Amount.above_zero s) = true
is_above amount = false

-- The strategies of the exchange that the symbol names, for both vaults.
unfoldable pub strategies :
    String → VaultsEntity → VaultsEntity → Result (Option String × Option String)
strategies symbol long short = do
  key ←
      require (str_append "err: no symbol is not match any strategy, value " symbol)
        (exchange_of (includes symbol))
  ok (
    lookup key long.strategy_add_two_sides_optimal,
    lookup key short.strategy_add_two_sides_optimal,
  )

-- the amount of the native token that is sent along
unfoldable pub native_amount : String → DeltaNeutralVaultsEntity → ℤ → ℤ → ℤ
native_amount native vault long short =
    if compare native vault.asset_token
    then short
    else if compare native vault.stable_token
    then long
    else ℤ.pos 0

abbrev work_byte : String → String → Option String → TokenInput → DepositWorkByte
work_byte vault worker strat t = record {
  pos_id = 0;
  vault_address = vault;
  worker_address = worker;
  two_sides_strat = strat;
  principal_amount = t.principal_amount;
  borrow_amount = t.borrow_amount;
  max_return = ℤ.pos 0;
  farming_token_amount = t.farming_amount;
  min_lp_receive = ℤ.pos 0;
}

module _ (a : Answers) where
  -- the token's amount that an input stands for
  abbrev pub units : Amount → ℕ → Result ℤ
  units amount decimal = a.parse_units (printed amount) decimal

  abbrev oriented : Bool → Pair ℤ → Pair ℤ
  oriented true p = p
  oriented false p = record { base = p.farming; farming = p.base }

  -- the data of `initPositions`, from the amounts, the prices and the decimals of both tokens
  unfoldable pub deposit_data :
      DeltaNeutralVaultsEntity
      → Option String × Option String
      → ℤ
      → Pair ℤ
      → Pair ℤ
      → Pair ℕ
      → Result String
  deposit_data vault strats leverage amounts prices decimals = do
    long ← get_token_input a.from_number DepositSide.long amounts leverage prices decimals
    short ←
        get_token_input a.from_number DepositSide.short (oriented false amounts) leverage
          (oriented false prices) (record { base = decimals.farming; farming = decimals.base })
    long_work_byte ←
        a.encode_work_byte (work_byte vault.stable_vault vault.stable_delta_worker strats.0 long)
    short_work_byte ←
        a.encode_work_byte (work_byte vault.asset_vault vault.asset_delta_worker strats.1 short)
    ok (a.encode_deposit long_work_byte short_work_byte)

  -- the message's number is left out
  abbrev pub decimal_of : String → String → Result ℕ
  decimal_of side token = do
    guard (leb (a.decimals token) 18)
        (str_append "error:not supported " (str_append side " Token Decimal > 18"))
    ok (a.decimals token)

  -- What a round reads before its first transaction.
  pub record Checked : Type 0 where
    pub vault : DeltaNeutralVaultsEntity
    pub strats : Option String × Option String
    pub tokens : String × String
    pub decimals : Pair ℕ

  unfoldable pub checked : State → Tokens → InitPositionInput → Result Checked
  checked s tokens i = do
    guard (amounts_ok i.long_deposit_amount i.short_deposit_amount)
        "error: invalid input, longDepositAmount or shortDepositAmount should greater than 0 at least 1 side"
    vault ←
        require (str_append "error: unable to find delta neutral vault info for " i.symbol)
          (find (λ v. v.symbol === i.symbol) s.config.delta_neutral_vaults)
    long_vault ←
        validate_delta_neutral_vault_by_symbol s.config.vaults vault.stable_vault
          i.expected_long_vault_symbol
    short_vault ←
        validate_delta_neutral_vault_by_symbol s.config.vaults vault.asset_vault
          i.expected_short_vault_symbol
    long_token ←
        validate_delta_neutral_token_by_symbol tokens vault.stable_token
          i.expected_long_token_symbol
    short_token ←
        validate_delta_neutral_token_by_symbol tokens vault.asset_token
          i.expected_short_token_symbol
    long_decimal ← decimal_of "Long" long_token
    short_decimal ← decimal_of "Short" short_token
    strats ← strategies i.symbol long_vault short_vault
    ok (record {
      vault = vault;
      strats = strats;
      tokens = (long_token, short_token);
      decimals = record { base = long_decimal; farming = short_decimal };
    })

  -- The amounts in units, and the data that goes with them.
  pub record Prepared : Type 0 where
    pub long : ℤ
    pub short : ℤ
    pub bytes : String

  unfoldable pub prepared : Option String → InitPositionInput → Checked → Result Prepared
  prepared oracle_address i v = do
    leverage ← a.from_number i.leverage
    oracle ← connected oracle_address
    long ← units i.long_deposit_amount v.decimals.base
    short ← units i.short_deposit_amount v.decimals.farming
    let prices : Pair ℤ = record {
      base = a.token_price oracle v.tokens.0;
      farming = a.token_price oracle v.tokens.1;
    }
    bytes ←
        deposit_data v.vault v.strats leverage (record { base = long; farming = short }) prices
          v.decimals
    ok (record { long = long; short = short; bytes = bytes })
