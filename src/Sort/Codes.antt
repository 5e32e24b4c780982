-- ===== src/Sort/Codes.antt =====
-- The orders that the program sorts by: `Buffer.compare`, and the default order of texts.
use text.Mathlib.TextEquality.{Char-path}
use bsc_alpaca_contract.Prelude.{
  ℕ, String, ◌≡◌, refl, ap, ap₂, ◌↔◌, Bool, true, false, List, [], ◌∷◌, arith, ltb, codes, codes_eq,
  codes_eq_iff, if◌then◌else◌,
}
use bsc_alpaca_contract.Sort.{Ord}

-- The lexicographic comparison of two arrays of numbers.
unfoldable pub less_codes : List ℕ → List ℕ → Bool
less_codes [] [] = false
less_codes [] (b ∷ t) = true
less_codes (a ∷ s) [] = false
less_codes (a ∷ s) (b ∷ t) = if ltb a b then true else if ltb b a then false else less_codes s t

pub less_codes_irrefl : (s : List ℕ) → less_codes s s ≡ false
unfolding less_codes
less_codes_irrefl [] = refl
less_codes_irrefl (a ∷ s) = ground (arith, less_codes_irrefl s)

pub less_codes_trans :
    (s t u : List ℕ) → less_codes s t ≡ true → less_codes t u ≡ true → less_codes s u ≡ true
unfolding less_codes
less_codes_trans [] [] u p q = cc
less_codes_trans [] (b ∷ t) [] p q = cc
less_codes_trans [] (b ∷ t) (c ∷ u) p q = refl
less_codes_trans (a ∷ s) [] u p q = cc
less_codes_trans (a ∷ s) (b ∷ t) [] p q = cc
less_codes_trans (a ∷ s) (b ∷ t) (c ∷ u) p q = ground (arith, less_codes_trans s t u)

less_codes_total : (s t : List ℕ) → less_codes s t ≡ false → less_codes t s ≡ false → s ≡ t
unfolding less_codes
less_codes_total [] [] p q = refl
less_codes_total [] (b ∷ t) p q = cc
less_codes_total (a ∷ s) [] p q = cc
less_codes_total (a ∷ s) (b ∷ t) p q = ground (arith, less_codes_total s t)

pub less_codes_same :
    (s t : List ℕ) → less_codes s t ≡ false → less_codes t s ≡ false → codes_eq s t ≡ true
less_codes_same s t p q = (codes_eq_iff s t).1 (less_codes_total s t p q)

-- `Buffer.compare` on buffers, which are arrays of bytes
instance abbrev pub codes_ord : Ord (List ℕ)
codes_ord = record {
  less = less_codes;
  same = codes_eq;
  same_iff = codes_eq_iff;
  less_irrefl = less_codes_irrefl;
  less_trans = less_codes_trans;
  less_total = less_codes_same;
}

codes_injective : (s t : String) → codes s ≡ codes t → s ≡ t
codes_injective String.[] String.[] e = refl
codes_injective String.[] (String.◌∷◌ d t) e = cc
codes_injective (String.◌∷◌ c s) String.[] e = cc
codes_injective (String.◌∷◌ c s) (String.◌∷◌ d t) e =
    ap₂ String.◌∷◌ (Char-path c d (ground (arith, e))) (codes_injective s t (ground (arith, e)))

pub codes_same_iff : (s t : String) → (codes_eq (codes s) (codes t) ≡ true) ↔ (s ≡ t)
codes_same_iff s t = (
  λ h. codes_injective s t ((codes_eq_iff (codes s) (codes t)).0 h),
  λ e. (codes_eq_iff (codes s) (codes t)).1 (ap codes e),
)

-- `sort()` on texts compares their code units
instance abbrev pub text_ord : Ord String
text_ord = record {
  less = λ s t. less_codes (codes s) (codes t);
  same = λ s t. codes_eq (codes s) (codes t);
  same_iff = codes_same_iff;
  less_irrefl = λ s. less_codes_irrefl (codes s);
  less_trans = λ s t u. less_codes_trans (codes s) (codes t) (codes u);
  less_total = λ s t. less_codes_same (codes s) (codes t);
}
