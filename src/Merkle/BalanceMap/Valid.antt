-- ===== src/Merkle/BalanceMap/Valid.antt =====
-- What the rows of an airdrop satisfy once they are gathered by address.
use bsc_alpaca_contract.Prelude.{
  guard-true, ℕ, ◌<◌, String, ◌≡◌, refl, sym, ◌∙◌, true, List, [], ◌∷◌, some, arith, ok, guard,
  >>=-eq-ok, ok_injective, ◌===◌, eq_iff, Dict, lookup, insert, lookup-insert, Bool-cases, inl, inr,
}
use mathlib.Core.Option.{some-injective}
use bsc_alpaca_contract.Merkle.BalanceMap.{
  BigNumber, positive, not_positive, Ethers, NewFormat, Entry, flags_of, is_unset, require_positive,
  add_row, data_by_address,
}

require_positive-lt :
    (message : String) (n : BigNumber) {amount : ℕ}
    → require_positive message n ≡ ok amount
    → 0 < amount
require_positive-lt message (positive n) h = let p = ok_injective h in rw (← p) (omega arith)
require_positive-lt message not_positive h = cc

module _ (e : Ethers) where
  -- The key is the checked form of an address, and the amount is positive.
  pub record IsValidEntry (address : String) (entry : Entry) : Type 0 where
    pub account : String
    pub is_valid : e.is_address account ≡ true
    pub checked : e.get_address account ≡ address
    pub is_positive : 0 < entry.amount

  abbrev AreValid : Dict Entry → Type 0
  AreValid d =
      (address : String) (entry : Entry)
      → lookup address d ≡ some entry
      → IsValidEntry address entry

  insert-AreValid :
      (address : String) (entry : Entry) (memo : Dict Entry)
      → IsValidEntry address entry
      → AreValid memo
      → AreValid (insert address entry memo)
  insert-AreValid address entry memo new good a c h = elim (Bool-cases (address === a)) [
    | inl same ↦
        let p = (eq_iff address a).0 same in
        let q : entry ≡ c =
          some-injective entry c (sym (rw (lookup-insert address a entry memo, same) refl) ∙ h) in
        rw (← p, ← q) new
    | inr other ↦ good a c (sym (rw (lookup-insert address a entry memo, other) refl) ∙ h)
  ]

  add_row-AreValid :
      (memo next : Dict Entry) (row : NewFormat)
      → add_row e memo row ≡ ok next
      → AreValid memo
      → AreValid next
  unfolding add_row
  add_row-AreValid memo next row made good =
      let (_, valid, made₁) = >>=-eq-ok (guard (e.is_address row.address) _) _ made in
      let parsed = e.get_address row.address in
      let (_, unset, made₂) = >>=-eq-ok (guard (is_unset (lookup parsed memo)) _) _ made₁ in
      let (number, read, made₃) = >>=-eq-ok (e.big_number_from row.earnings) _ made₂ in
      let (amount, is_amount, made₄) = >>=-eq-ok (require_positive _ number) _ made₃ in
      let entry : Entry = record { amount = amount; flags = flags_of row.reasons } in
      let new : IsValidEntry parsed entry = record {
        account = row.address;
        is_valid = guard-true _ _ valid;
        checked = refl;
        is_positive = require_positive-lt _ number is_amount;
      } in
      let p = ok_injective made₄ in rw p at (insert-AreValid parsed entry memo new good)

  data_by_address-AreValid :
      (memo : Dict Entry) (rows : List NewFormat) (by_address : Dict Entry)
      → data_by_address e memo rows ≡ ok by_address
      → AreValid memo
      → AreValid by_address
  unfolding data_by_address
  data_by_address-AreValid memo [] by_address made good = let p = ok_injective made in rw p at good
  data_by_address-AreValid memo (row ∷ rows) by_address made good =
      let (next, added, later) = >>=-eq-ok (add_row e memo row) _ made in
      data_by_address-AreValid next rows by_address later
        (add_row-AreValid memo next row added good)

  nothing_there : (address : String) (entry : Entry) → lookup address [] ≡ some entry → ⊥
  unfolding lookup
  nothing_there address entry h = cc

  -- If the rows of an airdrop are gathered without an error, then each address that has an entry is
  -- what `getAddress` gives for a valid address, and the entry's amount is positive.
  pub data_by_address-valid :
      (rows : List NewFormat) (by_address : Dict Entry) (address : String) (entry : Entry)
      → data_by_address e [] rows ≡ ok by_address
      → lookup address by_address ≡ some entry
      → IsValidEntry address entry
  data_by_address-valid rows by_address address entry made there =
      data_by_address-AreValid [] rows by_address made (λ a c h. absurd (nothing_there a c h))
        address entry there
