-- ===== src/Tests/Positions.antt =====
-- The amounts of a first deposit.
use bsc_alpaca_contract.Prelude.{
  [], ◌∷◌, some, none, lookup, to_lower_case, lower, codes_eq, ℕ, ◌+◌, ◌*◌, ◌≤◌, Result, ok, ◌≡◌,
  refl, arith,
}
use bsc_alpaca_contract.Address.{compare}
use bsc_alpaca_contract.Config.{Config, DeltaNeutralVaultsEntity}
use bsc_alpaca_contract.ConfigFile.{default_delta_neutral_vaults_entity}
use bsc_alpaca_contract.Script.{State}
use bsc_alpaca_contract.Script.Order.{IsInOrder}
use bsc_alpaca_contract.InitPositions.Checks.{
  validate_delta_neutral_vault_by_symbol, validate_delta_neutral_token_by_symbol, check_token,
}
use bsc_alpaca_contract.InitPositions.Sound.{IsSound, checked-IsSound}
use bsc_alpaca_contract.Tests.Configs.{toy_config}
use bsc_alpaca_contract.InitPositions.Deposit.{
  Amount, Answers, InitPositionInput, Checked, checked, amounts_ok, strategies,
}
use bsc_alpaca_contract.InitPositions.Rounds.{init_positions}
use bsc_alpaca_contract.InitPositions.Ordered.{init_positions-IsInOrder}
use bsc_alpaca_contract.Tests.Deployments.{toy_chain, toy_state, toy_counts}
use bsc_alpaca_contract.InitPositions.Amounts.{ℤ, DepositSide, Pair, get_token_input}
use bsc_alpaca_contract.InitPositions.Split.{whole, swap, get_token_input-splits}

abbrev exact_number : ℕ → Result ℤ
exact_number n = ok (ℤ.pos n)

-- of a token with 18 decimals and one with 8
abbrev deposit : Pair ℕ
deposit = record { base = 1000000000000000001; farming = 300000007 }

abbrev price : Pair ℕ
price = record { base = 1; farming = 280 }

abbrev decimals : Pair ℕ
decimals = record { base = 18; farming = 8 }

get_token_input-splits_example :
    (a b x c d y : ℕ) × (get_token_input exact_number DepositSide.long
        (whole deposit)
        (ℤ.pos 8)
        (whole price)
        decimals
      ≡ ok (record {
        principal_amount = ℤ.pos a;
        farming_amount = ℤ.pos b;
        borrow_amount = ℤ.pos x;
      }))
    × (get_token_input exact_number DepositSide.short
          (whole (swap deposit))
          (ℤ.pos 8)
          (whole (swap price))
          (swap decimals)
        ≡ ok (record {
          principal_amount = ℤ.pos c;
          farming_amount = ℤ.pos d;
          borrow_amount = ℤ.pos y;
        }))
    × (a + d ≤ 1000000000000000001)
    × (1000000000000000001 ≤ a + d + 1)
    × (c + b ≤ 300000007)
    × (300000007 ≤ c + b + 1)
    × (a * 7 ≤ x)
    × (c * 7 ≤ y)
get_token_input-splits_example =
    get_token_input-splits exact_number (λ n small. refl) deposit price decimals 8 (omega arith)
      (omega arith) (omega arith) (omega arith) (omega arith)

abbrev toy_answers : Answers
toy_answers = record {
  decimals = λ token. 18;
  allowance = λ token vault earlier. 0;
  token_price = λ oracle token. ℤ.pos 280;
  wrapped_native = λ config. "0x0b";
  stable_vault_pos_id = λ vault earlier. "11";
  asset_vault_pos_id = λ vault earlier. "12";
  from_number = exact_number;
  parse_units = λ digits decimals. ok (ℤ.pos 100);
  encode_work_byte = λ input. ok "0x01";
  encode_deposit = λ long short. "0x02";
  number_text = λ n. "{}";
}

abbrev toy_position : InitPositionInput
toy_position = record {
  symbol = "n8x-BNBUSDT-BSW1";
  long_deposit_amount = Amount.above_zero "100";
  short_deposit_amount = Amount.at_zero;
  leverage = 8;
  expected_long_vault_symbol = some "ibWBNB";
  expected_long_token_symbol = some "CAKE";
  expected_short_vault_symbol = none;
  expected_short_token_symbol = none;
}

abbrev position_vault : DeltaNeutralVaultsEntity
position_vault = record default_delta_neutral_vaults_entity {
  symbol = "n8x-BNBUSDT-BSW1";
  address = "0xf0";
  stable_vault = "0xCd";
  asset_vault = "0xCd";
  stable_token = "0x15";
  asset_token = "0x15";
}

abbrev position_config : Config
position_config = record toy_config {
  oracle = record toy_config.oracle { delta_neutral_oracle = some "0x1c" };
  delta_neutral_vaults = position_vault ∷ [];
}

abbrev position_state : State
position_state = record toy_state {
  config = position_config;
  helper = record toy_state.helper { config = position_config };
}

abbrev toy_checked : Checked toy_answers
toy_checked = record {
  vault = position_vault;
  strats = (none, none);
  tokens = ("0x15", "0x15");
  decimals = record { base = 18; farming = 18 };
}

toy_checked-returned :
    checked toy_answers position_state position_config.tokens toy_position ≡ ok toy_checked
unfolding checked amounts_ok validate_delta_neutral_vault_by_symbol
    validate_delta_neutral_token_by_symbol check_token strategies compare to_lower_case lower
    codes_eq lookup
toy_checked-returned = refl

checked-IsSound_example :
    IsSound toy_answers position_state position_config.tokens toy_position toy_checked
checked-IsSound_example =
    checked-IsSound toy_answers position_state position_config.tokens toy_position toy_checked
      toy_checked-returned

init_positions-IsInOrder_example :
    IsInOrder toy_chain
      (init_positions toy_chain toy_answers (toy_position ∷ []) position_state).0.sent
init_positions-IsInOrder_example =
    init_positions-IsInOrder toy_chain toy_answers toy_counts (toy_position ∷ []) position_state tt
