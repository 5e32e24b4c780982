-- ===== src/Prelude/Errors.antt =====
-- What a function returns, or the message of the `Error` that it throws.
use Prim.Native.String.{String}
use mathlib.Core.Bool.{Bool, true, false}
use mathlib.Core.Path.{◌≡◌, refl}
use mathlib.Core.List.{List, [], ◌∷◌}
use mathlib.Core.Option.{Option, none, some}

pub data Result {ℓ} (A : Type ℓ) : Type ℓ where
  ok : A → Result A
  throw : String → Result A

-- `if (!passed) throw Error(message)`
abbrev pub guard : Bool → String → Result (Unit {0})
guard passed message = elim passed [ true ↦ ok tt | false ↦ throw message ]

-- `if (!value) throw Error(message)`, and the value otherwise
abbrev pub require {ℓ} : {A : Type ℓ} → String → Option A → Result A
require message value = elim value [ none ↦ throw message | some a ↦ ok a ]

infixl 5 ◌>>=◌ ◌>>◌
-- The next statement runs on what the first returns, unless that throws.
abbrev pub ◌>>=◌ {ℓ κ} : {A : Type ℓ} {B : Type κ} → Result A → (A → Result B) → Result B
first >>= next = elim first [ throw message ↦ throw message | ok value ↦ next value ]

-- An array method with a callback that may throw: the first error ends it.
abbrev pub traverse {ℓ κ} : {A : Type ℓ} {B : Type κ} → (A → Result B) → List A → Result (List B)
traverse f [] = ok []
traverse f (x ∷ xs) = let rest = traverse f xs in f x >>= λ y. rest >>= λ ys. ok (y ∷ ys)

pub ok_injective {ℓ} : {A : Type ℓ} {a b : A} → ok a ≡ ok b → a ≡ b
ok_injective h = cc

abbrev pub ◌>>◌ {ℓ} : {B : Type ℓ} → Result (Unit {0}) → Result B → Result B
first >> second = first >>= λ nothing. second

pub ok≢throw {ℓ} : {A : Type ℓ} {a : A} {e : String} → ok a ≡ throw e → ⊥
ok≢throw h = cc

-- A sequence that returns went through its first statement.
pub >>=-eq-ok {ℓ κ} :
    {A : Type ℓ} {B : Type κ} (first : Result A) (next : A → Result B) {result : B}
    → (first >>= next) ≡ ok result
    → (value : A) × (first ≡ ok value) × (next value ≡ ok result)
>>=-eq-ok (throw message) next returned = cc
>>=-eq-ok (ok value) next returned = (value, refl, returned)

pub guard-true : (b : Bool) (message : String) → guard b message ≡ ok tt → b ≡ true
guard-true true message h = refl
guard-true false message h = cc

pub some_injective {ℓ} : {A : Type ℓ} {x y : A} → some x ≡ some y → x ≡ y
some_injective h = cc

pub differ : {b : Bool} → b ≡ true → b ≡ false → ⊥
differ h k = cc
