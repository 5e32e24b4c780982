-- ===== src/DeployWorkers/Listed.antt =====
-- The names of the workers in the configuration, as `addOrSetVaultWorker` changes them.
use bsc_alpaca_contract.Prelude.{
  ℕ, zero, suc, String, Bool, List, [], ◌∷◌, ◌++◌, some, ◌≡◌, refl, ◌∙◌, ◌===◌, ◌⊎◌, eq_iff, later,
  find_index-later, eq_refl, Bool-cases, Option-cases, inl, inr, find, find_index, find-append,
  find-upsert, find-upsert_other, change_at,
}
use bsc_alpaca_contract.Config.{VaultsEntity, WorkersEntity}
use bsc_alpaca_contract.Entities.{all_workers}
use bsc_alpaca_contract.ConfigFile.{with_worker}

-- A worker of that name is found.
abbrev pub Finds : String → List WorkersEntity → Type 0
Finds name workers = (w : WorkersEntity) × (find (λ w. w.name === name) workers ≡ some w)

-- Some vault has a worker of that name.
abbrev pub IsListed : String → List VaultsEntity → Type 0
IsListed name vaults = Finds name (all_workers vaults)

-- The worker that was set is found by its name.
find_set :
    (value : WorkersEntity) (vault : VaultsEntity) (name : String)
    → value.name ≡ name
    → find (λ w. w.name === name) (with_worker value vault).workers ≡ some value
find_set value vault name p =
    rw (← p) (find-upsert (λ w. w.name === value.name) value vault.workers (eq_refl value.name))

-- Setting a worker leaves every name that was there.
Finds-with_worker :
    (name : String) (value : WorkersEntity) (vault : VaultsEntity)
    → Finds name vault.workers
    → Finds name (with_worker value vault).workers
Finds-with_worker name value vault (w, found) = elim (Bool-cases (value.name === name)) [
  | inl same ↦
      let p : value.name ≡ name = (eq_iff value.name name).0 same in
      (value, find_set value vault name p)
  | inr other ↦ (
    w,
    find-upsert_other (λ w. w.name === value.name) (λ w. w.name === name) value vault.workers other
          (λ x at_value. rw (← (eq_iff x.name value.name).0 at_value) at other)
        ∙ found,
  )
]

all_workers-here :
    (name : String) (ws rest : List WorkersEntity) → Finds name ws → Finds name (ws ++ rest)
all_workers-here name ws rest (w, found) =
    (w, rw (find-append (λ w. w.name === name) ws rest, found) refl)

all_workers-later :
    (name : String) (ws rest : List WorkersEntity) → Finds name rest → Finds name (ws ++ rest)
all_workers-later name ws rest (w, found) = elim (Option-cases (find (λ w. w.name === name) ws)) [
  | inl nowhere ↦ (w, rw (find-append (λ w. w.name === name) ws rest, nowhere) found)
  | inr (v, here) ↦ all_workers-here name ws rest (v, here)
]

-- A name in the workers of two lists is in one of them.
all_workers-either :
    (name : String) (ws rest : List WorkersEntity)
    → Finds name (ws ++ rest)
    → Finds name ws ⊎ Finds name rest
all_workers-either name ws rest (w, found) = elim (Option-cases (find (λ w. w.name === name) ws)) [
  | inl nowhere ↦ inr (w, rw (find-append (λ w. w.name === name) ws rest, nowhere) at found)
  | inr (v, here) ↦ inl (v, here)
]

pub IsListed-change_at :
    (name : String) (value : WorkersEntity) (i : ℕ) (vaults : List VaultsEntity)
    → IsListed name vaults
    → IsListed name (change_at i (with_worker value) vaults)
unfolding all_workers
IsListed-change_at name value i [] h = h
IsListed-change_at name value zero (vault ∷ vaults) h =
    elim (all_workers-either name vault.workers (all_workers vaults) h) [
      | inl here ↦ all_workers-here name _ _ (Finds-with_worker name value vault here)
      | inr later ↦ all_workers-later name _ _ later
    ]
IsListed-change_at name value (suc i) (vault ∷ vaults) h =
    elim (all_workers-either name vault.workers (all_workers vaults) h) [
      | inl here ↦ all_workers-here name _ _ here
      | inr later ↦ all_workers-later name _ _ (IsListed-change_at name value i vaults later)
    ]

-- The vault that was found for the key lists the worker.
pub IsListed-set :
    (value : WorkersEntity) (p : VaultsEntity → Bool) (i : ℕ) (vaults : List VaultsEntity)
    → find_index p vaults ≡ some i
    → IsListed value.name (change_at i (with_worker value) vaults)
unfolding all_workers
IsListed-set value p i [] found = cc
IsListed-set value p zero (vault ∷ vaults) found =
    all_workers-here value.name _ _ (value, find_set value vault value.name refl)
IsListed-set value p (suc i) (vault ∷ vaults) found =
    all_workers-later value.name vault.workers _
      (IsListed-set value p i vaults (find_index-later p vault vaults i found))
