-- ===== src/Script/Triples.antt =====
-- What a statement of a script does to the state, by rules for the ways statements are put together.
use bsc_alpaca_contract.Prelude.{
  String, Bool, List, [], ◌∷◌, Option, none, some, Result, ok, throw, if◌then◌else◌, if_intro,
}
use bsc_alpaca_contract.Script.{
  Sent, State, Script, after, ◌>>=◌, return, lift, get, for_each, send_unless,
}

-- `Q` after a statement that returned, and `F` after one that threw.
abbrev pub Outcome {ℓ} :
    {A : Type ℓ} → (State → Type 0) → (State → Type 0) → State × Result A → Type 0
Outcome F Q (t, ok value) = Q t
Outcome F Q (t, throw message) = F t

-- A statement that starts where `P` holds ends where `Q` holds, or throws where `F` holds.
pub record Triple {ℓ} {A : Type ℓ} (F P : State → Type 0) (m : Script A) (Q : State → Type 0)
    : Type 0 where
  pub runs : (s : State) → P s → Outcome F Q (m s)

pub Outcome-after {ℓ κ} :
    {A : Type ℓ} {B : Type κ} (F Q R : State → Type 0) (r : State × Result A) (next : A → Script B)
    → Outcome F Q r
    → ((value : A) → Triple F Q (next value) R)
    → Outcome F R (after r next)
Outcome-after F Q R (t, throw message) next h rest = h
Outcome-after F Q R (t, ok value) next h rest = (rest value).runs t h

pub Triple-then {ℓ κ} :
    {A : Type ℓ} {B : Type κ} {F P Q R : State → Type 0} {m : Script A} {next : A → Script B}
    → Triple F P m Q
    → ((value : A) → Triple F Q (next value) R)
    → Triple F P (m >>= next) R
Triple-then {F = F} {Q = Q} {R} {m} {next} h rest = record {
  runs = λ s p. Outcome-after F Q R (m s) next (h.runs s p) rest;
}

pub Triple-return {ℓ} :
    {A : Type ℓ} {F P : State → Type 0} (value : A) → Triple F P (return value) P
Triple-return value = record { runs = λ s p. p }

pub Triple-get : {F P : State → Type 0} → Triple F P get P
Triple-get = record { runs = λ s p. p }

-- An expression leaves the state as it was.
pub Triple-lift {ℓ} :
    {A : Type ℓ} {F P : State → Type 0} (r : Result A)
    → ((s : State) → P s → F s)
    → Triple F P (lift r) P
Triple-lift (throw message) fails = record { runs = λ s p. fails s p }
Triple-lift (ok value) fails = record { runs = λ s p. p }

pub Triple-for_each {ℓ} :
    {A : Type ℓ} {F P : State → Type 0} (f : A → Script (Unit {0})) (xs : List A)
    → ((x : A) → Triple F P (f x) P)
    → Triple F P (for_each f xs) P
Triple-for_each f [] h = Triple-return tt
Triple-for_each f (x ∷ xs) h = Triple-then (h x) (λ done. Triple-for_each f xs h)

pub Triple-if :
    {F P Q : State → Type 0} (b : Bool) {m n : Script (Unit {0})}
    → Triple F P m Q
    → Triple F P n Q
    → Triple F P (if b then m else n) Q
Triple-if {F} {P} {Q} b h k = if_intro (λ m. Triple F P m Q) b h k

-- Less may hold after, and more before.
pub Triple-consequence {ℓ} :
    {A : Type ℓ} {F P Q R : State → Type 0} {m : Script A}
    → Triple F P m Q
    → ((s : State) → Q s → R s)
    → Triple F P m R
Triple-consequence {F = F} {P} {Q} {R} {m} h less = record {
  runs = λ s p. weaken (m s) (h.runs s p);
}
  where
    weaken : {B : Type ℓ} (r : State × Result B) → Outcome F Q r → Outcome F R r
    weaken (t, ok value) q = less t q
    weaken (t, throw message) q = q

pub Triple-before {ℓ} :
    {A : Type ℓ} {F P Q R : State → Type 0} {m : Script A}
    → Triple F Q m R
    → ((s : State) → P s → Q s)
    → Triple F P m R
Triple-before h more = record { runs = λ s p. h.runs s (more s p) }

pub Outcome-send_unless :
    (F Q : State → Type 0) (r : Option String) (x : Sent) (s : State)
    → F s
    → Q (record s { sent = x ∷ s.sent })
    → Outcome F Q (send_unless r x s)
Outcome-send_unless F Q none x s p q = q
Outcome-send_unless F Q (some message) x s p q = p

-- What holds after the statement, whether it returned or threw.
pub Triple-always {ℓ} :
    {A : Type ℓ} {F P : State → Type 0} (m : Script A)
    → Triple F P m F
    → (s : State) → P s
    → F (m s).0
Triple-always {F = F} m h s p = of_outcome (m s) (h.runs s p)
  where
    of_outcome : {B : Type ℓ} (r : State × Result B) → Outcome F F r → F r.0
    of_outcome (t, ok value) q = q
    of_outcome (t, throw message) q = q
