-- ===== src/Merkle/Bytes.antt =====
-- Node's `Buffer` as an array of bytes, and its hexadecimal text.
use Prim.Native.Char.{Char, code}
use bsc_alpaca_contract.Prelude.{
  ℕ, zero, suc, ◌+◌, ◌-◌, ◌*◌, ◌/◌, ◌%◌, ◌<◌, ◌≤◌, String, ◌≡◌, refl, ap, Bool, true, false, ◌&&◌,
  List, [], ◌∷◌, Option, none, some, arith, leb, ◌==◌, All, Option-cases, inl, inr, if◌then◌else◌,
}

abbrev pub Buffer : Type 0
Buffer = List ℕ

-- A buffer holds bytes.
abbrev pub IsBytes : Buffer → Type 0
IsBytes = All (λ b. b < 256)

abbrev digit_at : List Char → ℕ → Char
digit_at [] n = "0"
digit_at (c ∷ cs) zero = c
digit_at (c ∷ cs) (suc n) = digit_at cs n

-- the lower case digit for a number below 16
unfoldable pub hex_char : ℕ → Char
hex_char = digit_at (
    "0" ∷ "1" ∷ "2" ∷ "3" ∷ "4" ∷ "5" ∷ "6" ∷ "7" ∷ "8" ∷ "9" ∷ "a" ∷ "b" ∷ "c" ∷ "d" ∷ "e" ∷ "f"
    ∷ [])

-- the value of a digit in either case
hex_value : ℕ → Option ℕ
hex_value c =
    if leb 48 c && leb c 57
    then some (c - 48)
    else if leb 97 c && leb c 102
    then some (c - 87)
    else if leb 65 c && leb c 70
    then some (c - 55)
    else none

-- `buffer.toString('hex')`
unfoldable pub to_hex : Buffer → String
unfolding hex_char
to_hex [] = String.[]
to_hex (b ∷ bs) = String.◌∷◌ (hex_char (b / 16)) (String.◌∷◌ (hex_char (b % 16)) (to_hex bs))

-- one byte in front of what the rest of the text gives, unless a digit is not valid
abbrev from_digits : Option ℕ → Option ℕ → Buffer → Buffer
from_digits (some a) (some b) rest = (16 * a + b) ∷ rest
from_digits _ _ rest = []

-- `Buffer.from(text, 'hex')` stops at the first pair that is no byte
unfoldable pub from_hex : String → Buffer
unfolding hex_value
from_hex String.[] = []
from_hex (String.◌∷◌ a String.[]) = []
from_hex (String.◌∷◌ a (String.◌∷◌ b s)) =
    let rest = from_hex s in from_digits (hex_value (code a)) (hex_value (code b)) rest

-- `'0x' + text`
abbrev pub with_prefix : String → String
with_prefix s = String.◌∷◌ "0" (String.◌∷◌ "x" s)

-- `text.substr(2)`
abbrev pub without_prefix : String → String
without_prefix (String.◌∷◌ a (String.◌∷◌ b s)) = s
without_prefix _ = String.[]

-- The sixteen digits read back as their values, by evaluation.
holds_up_to : (ℕ → Bool) → ℕ → Bool
holds_up_to test zero = test 0
holds_up_to test (suc k) = holds_up_to test k && test (suc k)

holds_up_to-each :
    (test : ℕ → Bool) (k digit : ℕ) → digit ≤ k → holds_up_to test k ≡ true → test digit ≡ true
unfolding holds_up_to
holds_up_to-each test zero digit small each = let first : digit ≡ 0 = omega arith in rw first each
holds_up_to-each test (suc k) digit small each = ground (arith, holds_up_to-each test k digit)

reads_back : ℕ → Bool
unfolding hex_char hex_value
reads_back n = elim (hex_value (code (hex_char n))) [ none ↦ false | some m ↦ m == n ]

digits_read_back : holds_up_to reads_back 15 ≡ true
unfolding holds_up_to reads_back
digits_read_back = refl

same_value : (o : Option ℕ) (n : ℕ) → elim o [ none ↦ false | some m ↦ m == n ] ≡ true → o ≡ some n
same_value none n h = cc
same_value (some m) n h = ground arith

hex_value-hex_char : (n : ℕ) → n < 16 → hex_value (code (hex_char n)) ≡ some n
hex_value-hex_char n h =
    same_value (hex_value (code (hex_char n))) n
      (unfold reads_back in holds_up_to-each reads_back 15 n (omega arith) digits_read_back)

-- A buffer of bytes is read back from its hexadecimal text.
pub from_hex-to_hex : (b : Buffer) → IsBytes b → from_hex (to_hex b) ≡ b
unfolding from_hex to_hex
from_hex-to_hex [] h = refl
from_hex-to_hex (b ∷ bs) h =
    rw
      (
        hex_value-hex_char (b / 16) (omega arith),
        hex_value-hex_char (b % 16) (omega arith),
        from_hex-to_hex bs h.1,
      )
      (ap (λ c. c ∷ bs) (omega arith))

hex_value-lt : (c : ℕ) {n : ℕ} → hex_value c ≡ some n → n < 16
unfolding hex_value
hex_value-lt c h = ground arith

from_digits-IsBytes :
    (a b : ℕ) (rest : Buffer)
    → IsBytes rest
    → IsBytes (from_digits (hex_value a) (hex_value b) rest)
from_digits-IsBytes a b rest h = elim (Option-cases (hex_value a)) [
  | inl e ↦ rw e tt
  | inr (m, e) ↦ elim (Option-cases (hex_value b)) [
    | inl f ↦ rw (e, f) tt
    | inr (n, f) ↦ rw (e, f) (omega (arith, hex_value-lt a e, hex_value-lt b f), h)
  ]
]

-- What is read from a text is bytes.
pub from_hex-IsBytes : (s : String) → IsBytes (from_hex s)
unfolding from_hex
from_hex-IsBytes String.[] = tt
from_hex-IsBytes (String.◌∷◌ a String.[]) = tt
from_hex-IsBytes (String.◌∷◌ a (String.◌∷◌ b s)) =
    from_digits-IsBytes (code a) (code b) (from_hex s) (from_hex-IsBytes s)
