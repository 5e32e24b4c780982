-- ===== src/Prelude/Order.antt =====
-- "Shorter than" is a well-founded relation on arrays.
use Prim.Native.Nat.{ℕ, zero, suc, ◌<◌}
use mathlib.Core.List.{List}
use mathlib.Core.WellFounded.{Acc, WellFounded}
use native.Mathlib.Omega.{arith}
use bsc_alpaca_contract.Prelude.Lists.{length}

module _ {ℓ} {A : Type ℓ} where
  abbrev pub Shorter : List A → List A → Type 0
  Shorter a b = length a < length b

  Shorter-below : (k : ℕ) (l : List A) → length l < k → Acc Shorter l
  Shorter-below zero l h = absurd (omega arith)
  Shorter-below (suc k) l h = Acc.intro l λ m shorter. Shorter-below k m (omega arith)

  unfoldable pub Shorter-wf : WellFounded Shorter
  unfolding Shorter-below
  Shorter-wf = record { apply = λ l. Shorter-below (suc (length l)) l (omega arith) }
