-- ===== src/Validate/Strategies.antt =====
-- What the checks of scripts/validate-config.ts on strategies establish.
use bsc_alpaca_contract.Prelude.{
  String, Bool, true, false, not, List, [], ◌∷◌, Option, Result, ok, ◌>>◌, guard, traverse, find,
  find-holds, All, ◌≡◌, refl, Bool-cases, Option-cases, inl, inr, >>=-eq-ok,
}
use bsc_alpaca_contract.Address.{compare}
use bsc_alpaca_contract.Validate.{
  Chain, IStrategyRouterInfo, ITwoSidesVaultRouterInfo, is_set, filter_set, check_router,
  check_two_sides, check_each, read_two_sides, validate_strategies, validate_two_sides_strategies,
  validate_approve_add_strategies,
}

guard-true : (b : Bool) (message : String) → guard b message ≡ ok tt → b ≡ true
guard-true true message h = refl
guard-true false message h = cc

-- Where all is read and all checks hold, each element is read and its check holds.
each_checked :
    {A B : Type 0} (read : A → Result B) (check : A → B → Result (Unit {0})) (xs : List A)
    {bs : List B}
    → traverse read xs ≡ ok bs
    → check_each check xs bs ≡ ok tt
    → All (λ a. (b : B) × (read a ≡ ok b) × (check a b ≡ ok tt)) xs
each_checked read check [] from_read checked = tt
each_checked {A} {B} read check (a ∷ xs) {bs} from_read checked =
    let (b, at_a, made) = >>=-eq-ok (read a) _ from_read in
    let (rest, at_rest, made₁) = >>=-eq-ok (traverse read xs) _ made in
    let split : bs ≡ b ∷ rest = cc in
    let both : (check a b >> check_each check xs rest) ≡ ok tt = rw split at checked in
    let (u, here, later) = >>=-eq-ok (check a b) _ both in
    ((b, at_a, here), each_checked read check xs at_rest later)

true≢false : {b : Bool} → b ≡ true → b ≡ false → ⊥
true≢false p q = cc

All-map {ℓ κ} :
    {A : Type 0} {P : A → Type ℓ} {Q : A → Type κ}
    → ((a : A) → P a → Q a)
    → (xs : List A) → All P xs
    → All Q xs
All-map f [] h = tt
All-map f (x ∷ xs) (here, later) = (f x here, All-map f xs later)

-- What holds of the elements that stay holds of each that is set.
filter_set-All {ℓ} :
    (P : ITwoSidesVaultRouterInfo → Type ℓ) (infos : List ITwoSidesVaultRouterInfo)
    → All P (filter_set infos)
    → All (λ info. is_set info.strategy_address ≡ true → P info) infos
unfolding filter_set
filter_set-All P [] h = tt
filter_set-All P (info ∷ infos) h = elim (Bool-cases (is_set info.strategy_address)) [
  | inl set ↦
      let kept : All P (info ∷ filter_set infos) = rw set at h in
      (λ _. kept.0, filter_set-All P infos kept.1)
  | inr unset ↦
      let left : All P (filter_set infos) = rw unset at h in
      (λ set. absurd (true≢false set unset), filter_set-All P infos left)
]

-- The strategy is for the expected vault and the expected router.
abbrev pub HasTwoSides : Chain → ITwoSidesVaultRouterInfo → Type 0
HasTwoSides chain info =
    (vault : String) × (router : String) × (chain.vault info.strategy_address ≡ ok vault)
    × (chain.router info.strategy_address ≡ ok router)
    × (compare vault info.expected_vault ≡ true)
    × (compare router info.expected_router ≡ true)

module _ (chain : Chain) where
  -- If `validateStrategies` passes, every strategy has a router, which is the expected one up to
  -- letter case.
  pub validate_strategies-All :
      (infos : List IStrategyRouterInfo)
      → validate_strategies chain infos ≡ ok tt
      → All
          (λ info.
            (router : String) × (chain.router info.strategy_address ≡ ok router)
            × (compare router info.expected_router ≡ true))
          infos
  unfolding validate_strategies
  validate_strategies-All infos passed =
      let (results, answered, checked) = >>=-eq-ok (traverse _ infos) _ passed in
      All-map (λ info (router, at_info, same). (router, at_info, guard-true _ _ same)) infos
        (each_checked (λ (info : IStrategyRouterInfo). chain.router info.strategy_address)
          check_router infos answered checked)

  -- If `validateTwoSidesStrategies` passes, every strategy whose address is not empty has the
  -- expected vault and the expected router, up to letter case.
  pub validate_two_sides_strategies-All :
      (infos : List ITwoSidesVaultRouterInfo)
      → validate_two_sides_strategies chain infos ≡ ok tt
      → All (λ info. is_set info.strategy_address ≡ true → HasTwoSides chain info) infos
  unfolding validate_two_sides_strategies
  validate_two_sides_strategies-All infos passed =
      let (results, answered, checked) = >>=-eq-ok (traverse _ (filter_set infos)) _ passed in
      filter_set-All (HasTwoSides chain) infos (
        All-map two_sides_parts (filter_set infos)
          (each_checked (read_two_sides chain) check_two_sides (filter_set infos) answered checked))
    where
      two_sides_parts :
          (info : ITwoSidesVaultRouterInfo)
          → (b : String × String) × (read_two_sides chain info ≡ ok b)
            × (check_two_sides info b ≡ ok tt)
          → HasTwoSides chain info
      two_sides_parts info ((v, r), reads, checks) =
          let (vault, at_vault, reads₁) = >>=-eq-ok (chain.vault info.strategy_address) _ reads in
          let (router, at_router, reads₂) =
            >>=-eq-ok (chain.router info.strategy_address) _ reads₁ in
          let same_vault : vault ≡ v = cc in
          let same_router : router ≡ r = cc in
          let (u, vault_ok, router_ok) =
            >>=-eq-ok (guard (compare v info.expected_vault) _) _ checks in
          (
            v,
            r,
            rw (← same_vault) at_vault,
            rw (← same_router) at_router,
            guard-true _ _ vault_ok,
            guard-true _ _ router_ok,
          )

  -- The check of the approvals passes whenever the contracts answer, whatever they answer.
  pub validate_approve_add_strategies-passes :
      (vault_config : String) (add_strats : List (Option String)) (is_approves : List Bool)
      → traverse (chain.approved_add_strategies vault_config) add_strats ≡ ok is_approves
      → validate_approve_add_strategies chain vault_config add_strats ≡ ok tt
  unfolding validate_approve_add_strategies
  validate_approve_add_strategies-passes vault_config add_strats is_approves answered =
      elim (Option-cases (find (λ b. not b) is_approves)) [
        | inl missing ↦ rw (answered, missing) refl
        | inr (b, there) ↦
            let p = not_true b (find-holds (λ c. not c) is_approves there) in
            rw (answered, there, p) refl
      ]
    where
      not_true : (b : Bool) → not b ≡ true → b ≡ false
      not_true true h = cc
      not_true false h = refl
