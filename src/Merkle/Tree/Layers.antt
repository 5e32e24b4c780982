-- ===== src/Merkle/Tree/Layers.antt =====
-- `getLayers`: the layers of a tree, from the elements to the root.
use mathlib.Core.Logic.{dif_pos, dif_neg}
use mathlib.Core.WellFounded.{Acc, induction}
use native.Mathlib.Bridge.{le_prop}
use native.Mathlib.Nat.{two-pow-succ}
use bsc_alpaca_contract.Prelude.{
  ℕ, zero, suc, ◌+◌, ◌^◌, ◌≤◌, ◌<◌, ◌≡◌, refl, List, [], ◌∷◌, arith, dec_lt, length, Shorter,
  Shorter-wf, ok,
}
use bsc_alpaca_contract.Merkle.Bytes.{Buffer}
use bsc_alpaca_contract.Merkle.Tree.{last_layer, root_of, layers_from, get_layers, Shorter-next}
use bsc_alpaca_contract.Merkle.Tree.Layer.{get_next_layer, length-get_next_layer}

-- Another layer below does not change the root.
last_layer-cons :
    (layer : List Buffer) (layers : List (List Buffer))
    → 0 < length layers
    → last_layer (layer ∷ layers) ≡ last_layer layers
unfolding last_layer
last_layer-cons layer [] h = absurd (omega arith)
last_layer-cons layer (next ∷ layers) h = refl

module _ (keccak256 : Buffer → Buffer) where
  pub layers_from_short :
      (l : List Buffer) (w : Acc Shorter l) → ¬ (1 < length l) → layers_from keccak256 l w ≡ l ∷ []
  unfolding layers_from
  layers_from_short l (Acc.intro _ below) h = dif_neg (dec_lt 1 (length l)) h _ _

  pub layers_from_long :
      (l : List Buffer) (w : Acc Shorter l)
      → 1 < length l
      → (v : Acc Shorter (get_next_layer keccak256 l)) × (layers_from keccak256 l w
          ≡ l ∷ layers_from keccak256 (get_next_layer keccak256 l) v)
  unfolding layers_from
  layers_from_long l (Acc.intro _ below) h =
      (below _ (Shorter-next keccak256 l h), dif_pos (dec_lt 1 (length l)) le_prop h _ _)

  pub layers_from-pos :
      (l : List Buffer) (w : Acc Shorter l) → 0 < length (layers_from keccak256 l w)
  layers_from-pos l w = elim (dec_lt 1 (length l)) [
    | yes long ↦ let (v, e) = layers_from_long l w long in rw e (omega arith)
    | no short ↦ rw (layers_from_short l w short) (omega arith)
  ]

  pub root_of-cons :
      (layer l : List Buffer) (v : Acc Shorter l)
      → root_of (layer ∷ layers_from keccak256 l v) ≡ root_of (layers_from keccak256 l v)
  unfolding root_of
  root_of-cons layer l v = rw (last_layer-cons layer _ (layers_from-pos l v))

  -- A statement about the layers of `l` follows from the two shapes that they can have.
  pub layers_induction {κ} :
      (C : List Buffer → List (List Buffer) → Type κ)
      → ((l : List Buffer) → ¬ (1 < length l) → C l (l ∷ []))
      → ((l : List Buffer) (v : Acc Shorter (get_next_layer keccak256 l))
          → 1 < length l
          → C (get_next_layer keccak256 l) (layers_from keccak256 (get_next_layer keccak256 l) v)
          → C l (l ∷ layers_from keccak256 (get_next_layer keccak256 l) v))
      → (l : List Buffer) (w : Acc Shorter l) → C l (layers_from keccak256 l w)
  layers_induction C base step l =
      induction Shorter-wf {C = λ l. (w : Acc Shorter l) → C l (layers_from keccak256 l w)} l
        λ l ih w. elim (dec_lt 1 (length l)) [
          | yes long ↦
              let (v, e) = layers_from_long l w long in
              rw e (step l v long (ih _ (Shorter-next keccak256 l long) v))
          | no short ↦ rw (layers_from_short l w short) (base l short)
        ]

  -- The last layer of a tree that is not empty is the root alone.
  pub length-last_layer :
      (l : List Buffer) (w : Acc Shorter l)
      → 0 < length l
      → length (last_layer (layers_from keccak256 l w)) ≡ 1
  length-last_layer =
      layers_induction (λ l ls. 0 < length l → length (last_layer ls) ≡ 1)
        (λ l short h. unfold last_layer in omega arith)
        (λ l v long ih h.
          rw (last_layer-cons l _ (layers_from-pos _ v))
            (ih (omega (arith, length-get_next_layer keccak256 l))))

  -- A tree of at most `2 ^ k` elements has at most `k + 1` layers.
  pub length-layers_from-le :
      (l : List Buffer) (w : Acc Shorter l) (k : ℕ)
      → length l ≤ 2 ^ k
      → length (layers_from keccak256 l w) ≤ k + 1
  length-layers_from-le =
      layers_induction (λ l ls. (k : ℕ) → length l ≤ 2 ^ k → length ls ≤ k + 1)
        (λ l short k h. omega arith) step
    where
      step :
          (l : List Buffer) (v : Acc Shorter (get_next_layer keccak256 l))
          → 1 < length l
          → ((k : ℕ)
              → length (get_next_layer keccak256 l) ≤ 2 ^ k
              → length (layers_from keccak256 (get_next_layer keccak256 l) v) ≤ k + 1)
          → (k : ℕ) → length l ≤ 2 ^ k
          → length (l ∷ layers_from keccak256 (get_next_layer keccak256 l) v) ≤ k + 1
      step l v long ih zero h = absurd (omega arith)
      step l v long ih (suc k) h =
          omega (arith, ih k (omega (arith, length-get_next_layer keccak256 l, two-pow-succ k)))

  -- `getLayers` of an array that is not empty does not throw.
  pub get_layers-pos :
      (l : List Buffer)
      → 0 < length l
      → get_layers keccak256 l ≡ ok (layers_from keccak256 l (Shorter-wf.apply l))
  unfolding get_layers
  get_layers-pos [] h = absurd (omega arith)
  get_layers-pos (el ∷ els) h = refl
