-- ===== src/Address.antt =====
-- utils/address.ts: comparison and validation of addresses given as texts.
use bsc_alpaca_contract.Prelude.{
  String, Bool, not, ◌&&◌, true, ◌===◌, ◌≡◌, refl, ◌↔◌, codes_eq, codes_eq_iff, to_lower_case,
}

-- `ethers.constants.AddressZero`
abbrev pub address_zero : String
address_zero = "0x0000000000000000000000000000000000000000"

unfoldable pub compare : String → String → Bool
compare address0 address1 = codes_eq (to_lower_case address0) (to_lower_case address1)

unfoldable pub validate_address : String → Bool
validate_address address = not (address === "") && not (address === address_zero)

pub compare_iff : (a b : String) → (compare a b ≡ true) ↔ (to_lower_case a ≡ to_lower_case b)
unfolding compare
compare_iff a b = codes_eq_iff (to_lower_case a) (to_lower_case b)

pub compare_refl : (a : String) → compare a a ≡ true
compare_refl a = (compare_iff a a).1 refl

-- Addresses that compare equal cannot be told apart by a comparison with a third.
pub compare_congr : (a b c : String) → compare a b ≡ true → compare a c ≡ compare b c
unfolding compare
compare_congr a b c same = rw ((compare_iff a b).0 same) refl
