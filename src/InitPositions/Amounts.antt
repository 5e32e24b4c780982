-- ===== src/InitPositions/Amounts.antt =====
-- `_getTokenInput` of deploy/exec/delta-neutral-vault/config/init-positions-v2.ts. The library's
-- `BigNumber` is an integer: its division drops the fraction, and throws on zero.
use bsc_alpaca_contract.Prelude.{
  ℕ, zero, suc, ◌+◌, ◌-◌, ◌*◌, ◌/◌, ◌^◌, ltb, Result, ok, throw, ◌>>=◌, if◌then◌else◌,
}

pub data ℤ : Type 0 where
  pos : ℕ → ℤ
  negsuc : ℕ → ℤ

abbrev pub negative : ℕ → ℤ
negative zero = ℤ.pos 0
negative (suc n) = ℤ.negsuc n

abbrev pub negate : ℤ → ℤ
negate (ℤ.pos n) = negative n
negate (ℤ.negsuc n) = ℤ.pos (suc n)

abbrev pub minus : ℕ → ℕ → ℤ
minus a b = if ltb a b then negative (b - a) else ℤ.pos (a - b)

unfoldable pub add : ℤ → ℤ → ℤ
add (ℤ.pos a) (ℤ.pos b) = ℤ.pos (a + b)
add (ℤ.pos a) (ℤ.negsuc b) = minus a (suc b)
add (ℤ.negsuc a) (ℤ.pos b) = minus b (suc a)
add (ℤ.negsuc a) (ℤ.negsuc b) = ℤ.negsuc (suc (a + b))

unfoldable pub sub : ℤ → ℤ → ℤ
sub a b = add a (negate b)

unfoldable pub mul : ℤ → ℤ → ℤ
mul (ℤ.pos a) (ℤ.pos b) = ℤ.pos (a * b)
mul (ℤ.pos a) (ℤ.negsuc b) = negative (a * suc b)
mul (ℤ.negsuc a) (ℤ.pos b) = negative (suc a * b)
mul (ℤ.negsuc a) (ℤ.negsuc b) = ℤ.pos (suc a * suc b)

unfoldable pub div : ℤ → ℤ → Result ℤ
div a (ℤ.pos zero) = throw "division-by-zero"
div (ℤ.pos a) (ℤ.pos (suc b)) = ok (ℤ.pos (a / suc b))
div (ℤ.pos a) (ℤ.negsuc b) = ok (negative (a / suc b))
div (ℤ.negsuc a) (ℤ.pos (suc b)) = ok (negative (suc a / suc b))
div (ℤ.negsuc a) (ℤ.negsuc b) = ok (ℤ.pos (suc a / suc b))

pub data DepositSide : Type 0 where
  long : DepositSide
  short : DepositSide

pub record TokenInput : Type 0 where
  pub principal_amount : ℤ
  pub farming_amount : ℤ
  pub borrow_amount : ℤ

-- A pair of the base token and the farming token.
pub record Pair {ℓ} (A : Type ℓ) : Type ℓ where
  pub base : A
  pub farming : A

abbrev pub numerator_of : DepositSide → ℤ → ℤ
numerator_of DepositSide.long leverage = sub leverage (ℤ.pos 2)
numerator_of DepositSide.short leverage = leverage

-- The amount in the decimals of the base token. `from_number` makes a `BigNumber` of the number
-- `10 ** n`, and throws where a number is not safe.
unfoldable pub convert_decimals : (ℕ → Result ℤ) → Pair ℕ → ℤ → Result ℤ
convert_decimals from_number decimals amount =
    let up = from_number (10 ^ (decimals.base - decimals.farming)) in
    let down = from_number (10 ^ (decimals.farming - decimals.base)) in
    if ltb decimals.farming decimals.base
    then (up >>= λ factor. ok (mul amount factor))
    else (down >>= λ factor. div amount factor)

unfoldable pub get_token_input :
    (ℕ → Result ℤ) → DepositSide → Pair ℤ → ℤ → Pair ℤ → Pair ℕ → Result TokenInput
get_token_input from_number side deposit leverage price decimals = do
  let numerator = numerator_of side leverage
  let denumerator = sub (mul leverage (ℤ.pos 2)) (ℤ.pos 2)
  let borrow_multiplier = sub leverage (ℤ.pos 1)
  principal ← div (mul deposit.base numerator) denumerator
  farming ← div (mul deposit.farming numerator) denumerator
  converted ← convert_decimals from_number decimals farming
  value ← div (mul converted price.farming) price.base
  ok (record {
    principal_amount = principal;
    farming_amount = farming;
    borrow_amount = mul (add value principal) borrow_multiplier;
  })
