-- ===== src/ConfigFile/Workers.antt =====
-- Which worker `addOrSetWorkerStrategy` changes, and what `addOrSetVaultWorker` and
-- `addOrSetDeltaNeutralVaults` leave in their lists.
use bsc_alpaca_contract.Prelude.{
  ℕ, suc, ◌+◌, String, List, [], ◌∷◌, Option, none, some, ◌≡◌, refl, sym, ◌∙◌, Bool-cases, inl, inr,
  false, eq_refl, eq_iff, ◌===◌, ◌≢◌, ok, find, find_index, find-upsert, find-upsert_other,
  ok_injective, All, length, ◌++◌, change_at, change_at-middle, arith,
}
use bsc_alpaca_contract.Address.{compare}
use bsc_alpaca_contract.Config.{VaultsEntity, WorkersEntity, DeltaNeutralVaultsEntity}
use bsc_alpaca_contract.ConfigFile.{
  with_worker, find_vault_idx, add_or_set_vault_worker, ConfigFileHelper, save, write_config_file,
  WorkerRef, with_strategy, assign_strategy, add_or_set_worker_strategy, worker_ref, ref_or,
  add_or_set_delta_neutral_vaults,
}

-- A vault that holds a worker at the address.
abbrev holds : String → VaultsEntity → Option ℕ
holds address vault = find_index (λ w. compare w.address address) vault.workers

-- After `addOrSetDeltaNeutralVaults` with an entity of that symbol, the entity is the one that a
-- search for the symbol finds, and a search for any other symbol finds what it found before.
pub add_or_set_delta_neutral_vaults-find :
    (symbol : String) (value : DeltaNeutralVaultsEntity) (this next : ConfigFileHelper)
    → value.symbol ≡ symbol
    → add_or_set_delta_neutral_vaults symbol value this ≡ ok next
    → (find (λ dv. dv.symbol === symbol) next.config.delta_neutral_vaults ≡ some value)
      × ((other : String)
          → symbol ≢ other
          → find (λ dv. dv.symbol === other) next.config.delta_neutral_vaults
            ≡ find (λ dv. dv.symbol === other) this.config.delta_neutral_vaults)
unfolding add_or_set_delta_neutral_vaults save write_config_file
add_or_set_delta_neutral_vaults-find symbol value this next named made =
    let p = ok_injective made in
    rw (← p) (
      find-upsert (λ dv. dv.symbol === symbol) value this.config.delta_neutral_vaults
          (rw (named, eq_refl symbol) refl),
      λ other apart.
          find-upsert_other (λ dv. dv.symbol === symbol) (λ dv. dv.symbol === other) value
            this.config.delta_neutral_vaults (differ symbol other apart value named)
            (λ dv at_symbol. differ symbol other apart dv ((eq_iff dv.symbol symbol).0 at_symbol)),
    )
  where
    differ :
        (s t : String)
        → s ≢ t
        → (dv : DeltaNeutralVaultsEntity) → dv.symbol ≡ s
        → (dv.symbol === t) ≡ false
    differ s t apart dv is_s = elim (Bool-cases (dv.symbol === t)) [
      | inl same ↦ absurd (apart (sym is_s ∙ (eq_iff dv.symbol t).0 same))
      | inr different ↦ different
    ]

worker_ref-none :
    (address : String) (i : ℕ) (vaults : List VaultsEntity) (worker : Option WorkerRef)
    → All (λ v. holds address v ≡ none) vaults
    → worker_ref address i vaults worker ≡ worker
unfolding worker_ref
worker_ref-none address i [] worker e = refl
worker_ref-none address i (vault ∷ vaults) worker (here, later) =
    rw here (worker_ref-none address (suc i) vaults worker later)

-- The last vault with such a worker decides.
worker_ref-last :
    (address : String) (i : ℕ) (before : List VaultsEntity) (vault : VaultsEntity)
    (after : List VaultsEntity) (j : ℕ) (worker : Option WorkerRef)
    → holds address vault ≡ some j
    → All (λ v. holds address v ≡ none) after
    → worker_ref address i (before ++ (vault ∷ after)) worker
      ≡ some (record { vault = i + length before; worker = j })
unfolding worker_ref
worker_ref-last address i [] vault after j worker here later =
    let p : i + 0 ≡ i = omega arith in
    let at_vault : worker_ref address (suc i) after (ref_or i (holds address vault) worker)
        ≡ some (record { vault = i; worker = j }) =
      rw here
        (worker_ref-none address (suc i) after (some (record { vault = i; worker = j })) later) in
    rw p at_vault
worker_ref-last address i (v ∷ before) vault after j worker here later =
    let p : i + suc (length before) ≡ suc i + length before = omega arith in
    rw p (
      worker_ref-last address (suc i) before vault after j (ref_or i (holds address v) worker) here
        later)

-- `addOrSetWorkerStrategy` succeeds whenever some vault holds a worker at the address. It changes
-- the strategy of the first such worker of the last such vault, and no other worker or vault.
pub add_or_set_worker_strategy-last :
    (address key value : String) (this : ConfigFileHelper) (before after : List VaultsEntity)
    (vault : VaultsEntity) (j : ℕ)
    → this.config.vaults ≡ before ++ (vault ∷ after)
    → find_index (λ w. compare w.address address) vault.workers ≡ some j
    → All (λ v. find_index (λ w. compare w.address address) v.workers ≡ none) after
    → (next : ConfigFileHelper) × (add_or_set_worker_strategy address key value this ≡ ok next)
      × (next.config.vaults
          ≡ before
            ++ (record vault { workers = change_at j (with_strategy key value) vault.workers }
                ∷ after))
unfolding add_or_set_worker_strategy save write_config_file
add_or_set_worker_strategy-last address key value this before after vault j split here later =
    let ref : WorkerRef = record { vault = 0 + length before; worker = j } in
    let found = worker_ref-last address 0 before vault after j none here later in
    let f = λ (v : VaultsEntity). (record v {
      workers = change_at j (with_strategy key value) v.workers;
    }) in
    let p : 0 + length before ≡ length before = omega arith in
    (
      write_config_file
          (record this.config { vaults = assign_strategy ref key value this.config.vaults })
          (record this {
            config = record this.config {
              vaults = assign_strategy ref key value this.config.vaults;
            };
          }),
      rw (split, found) refl,
      rw (split, p) (change_at-middle before f vault after),
    )

-- `addOrSetVaultWorker` succeeds whenever a vault is found for the key. Only that vault changes: a
-- search in its workers for the name of the given worker finds the given worker, and a search for
-- any other name finds what it found before.
pub add_or_set_vault_worker-find :
    (key : String) (value : WorkersEntity) (this : ConfigFileHelper)
    (before after : List VaultsEntity) (vault : VaultsEntity)
    → this.config.vaults ≡ before ++ (vault ∷ after)
    → find_vault_idx key this.config ≡ some (length before)
    → (next : ConfigFileHelper) × (changed : VaultsEntity) × (add_or_set_vault_worker key value this
        ≡ ok next)
      × (next.config.vaults ≡ before ++ (changed ∷ after))
      × (find (λ w. w.name === value.name) changed.workers ≡ some value)
      × ((other : String)
          → value.name ≢ other
          → find (λ w. w.name === other) changed.workers
            ≡ find (λ w. w.name === other) vault.workers)
unfolding add_or_set_vault_worker save write_config_file
add_or_set_vault_worker-find key value this before after vault split here =
    let config = record this.config {
      vaults = change_at (length before) (with_worker value) this.config.vaults;
    } in
    (
      write_config_file config (record this { config = config }),
      with_worker value vault,
      rw here refl,
      rw split (change_at-middle before (with_worker value) vault after),
      find-upsert (λ w. w.name === value.name) value vault.workers (eq_refl value.name),
      λ other apart.
          find-upsert_other (λ w. w.name === value.name) (λ w. w.name === other) value vault.workers
            (named_apart value.name other apart value.name refl)
            (λ w same.
              named_apart value.name other apart w.name ((eq_iff w.name value.name).0 same)),
    )
  where
    named_apart : (s t : String) → s ≢ t → (name : String) → name ≡ s → (name === t) ≡ false
    named_apart s t apart name is_s = elim (Bool-cases (name === t)) [
      | inl same ↦ absurd (apart (sym is_s ∙ (eq_iff name t).0 same))
      | inr different ↦ different
    ]
