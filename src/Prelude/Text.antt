-- ===== src/Prelude/Text.antt =====
-- Texts: code points, ASCII lower case, and the search that `includes` makes.
use Prim.Native.Nat.{ℕ, ◌+◌, compare, Ordering}
use Prim.Native.Char.{code}
use Prim.Native.String.{String}
use mathlib.Core.Bool.{Bool, true, false, ◌&&◌}
use mathlib.Core.List.{List, [], ◌∷◌, map}
use mathlib.Core.Option.{none, some}
use mathlib.Core.Path.{◌≡◌, refl}
use mathlib.Core.Logic.{◌↔◌}
use native.Mathlib.Omega.{arith}
use text.Mathlib.Text.{find?}

abbrev pub codes : String → List ℕ
codes String.[] = []
codes (String.◌∷◌ c s) = code c ∷ codes s

-- `toLowerCase` on one ASCII character
unfoldable pub lower : ℕ → ℕ
lower c = elim (compare c 65) [
  | Ordering.lt ↦ c
  | _ ↦ elim (compare c 90) [ Ordering.gt ↦ c | _ ↦ c + 32 ]
]

-- `s.toLowerCase()`, as code points
unfoldable pub to_lower_case : String → List ℕ
unfolding lower
to_lower_case s = map lower (codes s)

-- equality of two arrays of numbers
unfoldable pub codes_eq : List ℕ → List ℕ → Bool
codes_eq [] [] = true
codes_eq (a ∷ s) (b ∷ t) = elim (compare a b) [ Ordering.eq ↦ true | _ ↦ false ] && codes_eq s t
codes_eq _ _ = false

-- `s.includes(t)`
abbrev pub includes : String → String → Bool
includes s t = elim (find? s t) [ none ↦ false | some _ ↦ true ]

codes_eq_sound : (s t : List ℕ) → codes_eq s t ≡ true → s ≡ t
unfolding codes_eq
codes_eq_sound [] [] h = refl
codes_eq_sound [] (b ∷ t) h = cc
codes_eq_sound (a ∷ s) [] h = cc
codes_eq_sound (a ∷ s) (b ∷ t) h = ground (arith, codes_eq_sound s t)

codes_eq_refl : (s : List ℕ) → codes_eq s s ≡ true
unfolding codes_eq
codes_eq_refl [] = refl
codes_eq_refl (a ∷ s) = ground (arith, codes_eq_refl s)

pub codes_eq_iff : (s t : List ℕ) → (codes_eq s t ≡ true) ↔ (s ≡ t)
codes_eq_iff s t = (codes_eq_sound s t, λ e. rw e (codes_eq_refl t))
