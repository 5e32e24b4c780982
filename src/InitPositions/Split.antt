-- ===== src/InitPositions/Split.antt =====
-- How `_getTokenInput` splits two deposits between the long and the short position.
use native.Mathlib.Nat.{
  one-le-pow, mul-div-le, mul-sub, mul-le-mul_left, lt-mul-div-succ, lt_of_mul-lt-mul_left,
  le_of_mul-le-mul_left,
}
use bsc_alpaca_contract.Prelude.{
  ℕ, zero, suc, ◌+◌, ◌-◌, ◌*◌, ◌/◌, ◌^◌, ◌≤◌, ◌<◌, ltb, Result, ok, ◌≡◌, refl, arith, Bool-cases,
  inl, inr,
}
use bsc_alpaca_contract.InitPositions.Amounts.{
  ℤ, minus, add, sub, mul, div, DepositSide, Pair, numerator_of, convert_decimals, get_token_input,
}

-- amounts that are not negative
abbrev pub whole : Pair ℕ → Pair ℤ
whole p = record { base = ℤ.pos p.base; farming = ℤ.pos p.farming }

abbrev pub swap : Pair ℕ → Pair ℕ
swap p = record { base = p.farming; farming = p.base }

minus-le : (a b : ℕ) → b ≤ a → minus a b ≡ ℤ.pos (a - b)
minus-le a b h = ground arith

div-whole : (a m : ℕ) → 0 < m → div (ℤ.pos a) (ℤ.pos m) ≡ ok (ℤ.pos (a / m))
unfolding div
div-whole a zero h = ground arith
div-whole a (suc m) h = refl

-- Two parts of `d * m`, each divided by `m`, add up to `d` but for one.
split_le : (x y d m : ℕ) → 0 < m → x + y ≡ d * m → x / m + y / m ≤ d
split_le x y d m h p =
    let lower : m * (x / m) ≤ x = mul-div-le x m in
    let lower' : m * (y / m) ≤ y = mul-div-le y m in
    let both : m * (x / m + y / m) ≤ m * d = omega arith in le_of_mul-le-mul_left both h

split_ge : (x y d m : ℕ) → 0 < m → x + y ≡ d * m → d ≤ x / m + y / m + 1
split_ge x y d m h p =
    let upper : x < m * (x / m + 1) = lt-mul-div-succ x h in
    let upper' : y < m * (y / m + 1) = lt-mul-div-succ y h in
    let both : m * d < m * (x / m + y / m + 2) = omega arith in
    let below : d < x / m + y / m + 2 = lt_of_mul-lt-mul_left m both in omega arith

shares : (e l : ℕ) → 2 ≤ l → e * (l - 2) + e * l ≡ e * (l * 2 - 2)
shares e l two =
    let p : e * (l - 2) ≡ e * l - e * 2 = mul-sub e l 2 in
    let q : e * (l * 2 - 2) ≡ e * (l * 2) - e * 2 = mul-sub e (l * 2) 2 in
    let r : e * 2 ≤ e * l = mul-le-mul_left e two in omega arith

shares_comm : (e l : ℕ) → 2 ≤ l → e * l + e * (l - 2) ≡ e * (l * 2 - 2)
shares_comm e l two = let p = shares e l two in omega arith

borrowed_le : (a v k : ℕ) → a * k ≤ (v + a) * k
borrowed_le a v k = omega arith

-- What the two branches on the decimals leave, if the powers of ten are safe numbers.
module _ (from_number : ℕ → Result ℤ)
    (exact : (n : ℕ) → n ≤ 15 → from_number (10 ^ n) ≡ ok (ℤ.pos (10 ^ n))) where
  convert_decimals-returns :
      (decimals : Pair ℕ) (a : ℕ)
      → decimals.base ≤ decimals.farming + 15
      → decimals.farming ≤ decimals.base + 15
      → (v : ℕ) × (convert_decimals from_number decimals (ℤ.pos a) ≡ ok (ℤ.pos v))
  unfolding convert_decimals mul
  convert_decimals-returns decimals a h g =
      let up = decimals.base - decimals.farming in
      let down = decimals.farming - decimals.base in
      let up_exact = exact up (omega arith) in
      let down_exact = exact down (omega arith) in
      elim (Bool-cases (ltb decimals.farming decimals.base)) [
        | inl p ↦ (a * 10 ^ up, rw (p, up_exact) refl)
        | inr p ↦ (
          a / 10 ^ down,
          rw (p, down_exact) (div-whole a (10 ^ down) (one-le-pow down 10 (omega arith))),
        )
      ]

  -- One side, with the numerator `n`.
  get_token_input-returns :
      (side : DepositSide) (deposit price decimals : Pair ℕ) (leverage n : ℕ)
      → 2 ≤ leverage
      → 0 < price.base
      → numerator_of side (ℤ.pos leverage) ≡ ℤ.pos n
      → decimals.base ≤ decimals.farming + 15
      → decimals.farming ≤ decimals.base + 15
      → let a = deposit.base * n / (leverage * 2 - 2) in
        (v : ℕ) × (get_token_input from_number side
            (whole deposit)
            (ℤ.pos leverage)
            (whole price)
            decimals
          ≡ ok (record {
            principal_amount = ℤ.pos a;
            farming_amount = ℤ.pos (deposit.farming * n / (leverage * 2 - 2));
            borrow_amount = ℤ.pos ((v + a) * (leverage - 1));
          }))
  unfolding get_token_input sub mul add
  get_token_input-returns side deposit price decimals leverage n two priced p h g =
      let m = leverage * 2 - 2 in
      let b = deposit.farming * n / m in
      let converted = convert_decimals-returns decimals b h g in
      let v = converted.0 in
      (
        v * price.farming / price.base,
        rw
            (
              p,
              minus-le (leverage * 2) 2 (omega arith),
              minus-le leverage 1 (omega arith),
              div-whole (deposit.base * n) m (omega arith),
              div-whole (deposit.farming * n) m (omega arith),
              converted.1,
              div-whole (v * price.farming) price.base priced,
            )
            refl,
      )

  -- Two deposits, with a leverage of 2 or more, positive prices, and decimals that are at most 15
  -- apart (a power of ten up to 10 ^ 15 is a safe number): `_getTokenInput` returns for both sides, no
  -- amount is negative, and the long principal with the short farming amount is the long deposit,
  -- the short principal with the long farming amount the short deposit, each up to one unit that is
  -- left over and never more than the deposit. Each side borrows at least its principal times the
  -- leverage less one.
  pub get_token_input-splits :
      (deposit price decimals : Pair ℕ) (leverage : ℕ)
      → 2 ≤ leverage
      → 0 < price.base
      → 0 < price.farming
      → decimals.base ≤ decimals.farming + 15
      → decimals.farming ≤ decimals.base + 15
      → (a b x c d y : ℕ) × (get_token_input from_number DepositSide.long
            (whole deposit)
            (ℤ.pos leverage)
            (whole price)
            decimals
          ≡ ok (record {
            principal_amount = ℤ.pos a;
            farming_amount = ℤ.pos b;
            borrow_amount = ℤ.pos x;
          }))
        × (get_token_input from_number DepositSide.short
              (whole (swap deposit))
              (ℤ.pos leverage)
              (whole (swap price))
              (swap decimals)
            ≡ ok (record {
              principal_amount = ℤ.pos c;
              farming_amount = ℤ.pos d;
              borrow_amount = ℤ.pos y;
            }))
        × (a + d ≤ deposit.base)
        × (deposit.base ≤ a + d + 1)
        × (c + b ≤ deposit.farming)
        × (deposit.farming ≤ c + b + 1)
        × (a * (leverage - 1) ≤ x)
        × (c * (leverage - 1) ≤ y)
  unfolding sub add
  get_token_input-splits deposit price decimals leverage two priced priced' h g =
      let m = leverage * 2 - 2 in
      let some_m : 0 < m = omega arith in
      let long =
        get_token_input-returns DepositSide.long deposit price decimals leverage (leverage - 2) two
          priced (minus-le leverage 2 two) h g in
      let short =
        get_token_input-returns DepositSide.short (swap deposit) (swap price) (swap decimals)
          leverage leverage two priced' refl g h in
      (
        _,
        _,
        _,
        _,
        _,
        _,
        long.1,
        short.1,
        split_le _ _ _ m some_m (shares deposit.base leverage two),
        split_ge _ _ _ m some_m (shares deposit.base leverage two),
        split_le _ _ _ m some_m (shares_comm deposit.farming leverage two),
        split_ge _ _ _ m some_m (shares_comm deposit.farming leverage two),
        borrowed_le _ _ _,
        borrowed_le _ _ _,
      )
