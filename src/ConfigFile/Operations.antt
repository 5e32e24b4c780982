-- ===== src/ConfigFile/Operations.antt =====
-- Every method of `ConfigFileHelper` that changes the configuration keeps the file in step.
use bsc_alpaca_contract.Prelude.{
  String, Option, some, List, Result, ok, ◌>>=◌, >>=-eq-ok, ok_injective, ◌≡◌, refl, sym, ◌≢◌,
  lookup, insert, lookup-insert, require, get_elem?, eq_refl, eq_iff, ◌===◌, Bool-cases, inl, inr,
}
use bsc_alpaca_contract.Config.{
  Config, Creditor, DeltaNeutralVaultsEntity, WorkersEntity, YieldPoolsEntity,
}
use bsc_alpaca_contract.ConfigFile.{
  ConfigFileHelper, save, write_config_file, find_vault_idx, add_or_set_token,
  add_or_set_vault_worker, set_vault_twoside_optimal_on_key, set_vault_interest_model,
  add_or_set_worker_strategy, set_shared_strategy_on_key, add_or_set_delta_neutral_vaults_config,
  add_or_set_delta_neutral_vaults,
}
use bsc_alpaca_contract.ConfigFile.Settings.{
  set_delta_neutral_gateway, set_delta_neutral_vaults_init_position_ids, add_or_set_yiel_pool,
  set_ausd_staking, set_av_controller, set_credit_to_av_controller, add_or_set_creditors,
  add_or_set_nft_staking, add_or_set_nft_boosted_leverage_contoller,
  set_delta_neutral_health_checker, set_av_migration,
}

-- A call of one of the methods, with its arguments.
pub data Operation : Type 0 where
  set_token : String → String → Operation
  set_vault_worker : String → WorkersEntity → Operation
  set_two_sides : String → String → String → Operation
  set_interest_model : String → String → Operation
  set_worker_strategy : String → String → String → Operation
  set_shared_strategy : String → String → String → Operation
  set_delta_config : String → String → Operation
  set_delta_vault : String → DeltaNeutralVaultsEntity → Operation
  set_gateway : String → String → Operation
  set_positions : String → String → Option String → Operation
  add_pool : String → YieldPoolsEntity → Operation
  set_ausd : String → Operation
  set_controller : String → Operation
  set_credit : List String → Operation
  add_creditor : Creditor → Operation
  set_nft_staking : String → Operation
  set_nft_leverage : String → Operation
  set_health_checker : String → Operation
  set_migration : String → Operation

unfoldable pub run : Operation → ConfigFileHelper → Result ConfigFileHelper
run (set_token key address) = add_or_set_token key address
run (set_vault_worker vault worker) = add_or_set_vault_worker vault worker
run (set_two_sides vault key value) = set_vault_twoside_optimal_on_key vault key value
run (set_interest_model vault model) = set_vault_interest_model vault model
run (set_worker_strategy worker key value) = add_or_set_worker_strategy worker key value
run (set_shared_strategy key strategy value) = set_shared_strategy_on_key key strategy value
run (set_delta_config symbol value) = add_or_set_delta_neutral_vaults_config symbol value
run (set_delta_vault symbol value) = add_or_set_delta_neutral_vaults symbol value
run (set_gateway key value) = set_delta_neutral_gateway key value
run (set_positions key stable asset) = set_delta_neutral_vaults_init_position_ids key stable asset
run (add_pool source pool) = add_or_set_yiel_pool source pool
run (set_ausd address) = set_ausd_staking address
run (set_controller address) = set_av_controller address
run (set_credit creditors) = set_credit_to_av_controller creditors
run (add_creditor creditor) = add_or_set_creditors creditor
run (set_nft_staking address) = add_or_set_nft_staking address
run (set_nft_leverage address) = add_or_set_nft_boosted_leverage_contoller address
run (set_health_checker address) = set_delta_neutral_health_checker address
run (set_migration address) = set_av_migration address

-- The second state is the first one after a write: its file holds its configuration, and no other
-- file has changed.
pub record IsSavedFrom (this next : ConfigFileHelper) : Type 0 where
  pub same_path : next.file_path ≡ this.file_path
  pub in_step : lookup next.file_path next.files ≡ some next.config
  pub others :
      (path : String) → path ≢ this.file_path → lookup path next.files ≡ lookup path this.files

save-IsSavedFrom :
    (config : Config) (this : ConfigFileHelper) {next : ConfigFileHelper}
    → save config this ≡ ok next
    → IsSavedFrom this next
unfolding save write_config_file
save-IsSavedFrom config this {next} made =
    let p = ok_injective made in
    let written : IsSavedFrom this (write_config_file config (record this { config = config })) =
      record {
        same_path = refl;
        in_step =
            rw
              (
                lookup-insert this.file_path this.file_path config this.files,
                eq_refl this.file_path,
              )
              refl;
        others = other_path;
      } in
    rw p at written
  where
    other_path :
        (path : String)
        → path ≢ this.file_path
        → lookup path (insert this.file_path config this.files) ≡ lookup path this.files
    other_path path apart = elim (Bool-cases (this.file_path === path)) [
      | inl same ↦ absurd (apart (sym ((eq_iff this.file_path path).0 same)))
      | inr different ↦ rw (lookup-insert this.file_path path config this.files, different) refl
    ]

bind-IsSavedFrom {ℓ} :
    {A : Type ℓ} (m : Result A) (config : A → Config) (this : ConfigFileHelper)
    {next : ConfigFileHelper}
    → (m >>= λ a. save (config a) this) ≡ ok next
    → IsSavedFrom this next
bind-IsSavedFrom m config this made =
    let (a, _, saved) = >>=-eq-ok m (λ a. save (config a) this) made in
    save-IsSavedFrom (config a) this saved

-- A method that succeeds leaves the helper in step with its file: the file at the helper's path
-- holds the helper's new configuration, the path is the same, and no other file has changed.
pub run-IsSavedFrom :
    (op : Operation) (this next : ConfigFileHelper) → run op this ≡ ok next → IsSavedFrom this next
unfolding run add_or_set_token add_or_set_vault_worker set_vault_twoside_optimal_on_key
    set_vault_interest_model add_or_set_worker_strategy set_shared_strategy_on_key
    add_or_set_delta_neutral_vaults_config add_or_set_delta_neutral_vaults set_delta_neutral_gateway
    set_delta_neutral_vaults_init_position_ids add_or_set_yiel_pool set_ausd_staking
    set_av_controller set_credit_to_av_controller add_or_set_creditors add_or_set_nft_staking
    add_or_set_nft_boosted_leverage_contoller set_delta_neutral_health_checker set_av_migration
run-IsSavedFrom (set_token key address) this next made = save-IsSavedFrom _ this made
run-IsSavedFrom (set_vault_worker vault worker) this next made = bind-IsSavedFrom _ _ this made
run-IsSavedFrom (set_two_sides vault key value) this next made =
    let (idx, _, made₁) = >>=-eq-ok (require _ (find_vault_idx vault this.config)) _ made in
    let (entity, _, made₂) = >>=-eq-ok (require _ (get_elem? this.config.vaults idx)) _ made₁ in
    bind-IsSavedFrom _ _ this made₂
run-IsSavedFrom (set_interest_model vault model) this next made = bind-IsSavedFrom _ _ this made
run-IsSavedFrom (set_worker_strategy worker key value) this next made =
    bind-IsSavedFrom _ _ this made
run-IsSavedFrom (set_shared_strategy key strategy value) this next made =
    bind-IsSavedFrom _ _ this made
run-IsSavedFrom (set_delta_config symbol value) this next made = save-IsSavedFrom _ this made
run-IsSavedFrom (set_delta_vault symbol value) this next made = save-IsSavedFrom _ this made
run-IsSavedFrom (set_gateway key value) this next made = bind-IsSavedFrom _ _ this made
run-IsSavedFrom (set_positions key stable asset) this next made = bind-IsSavedFrom _ _ this made
run-IsSavedFrom (add_pool source pool) this next made = bind-IsSavedFrom _ _ this made
run-IsSavedFrom (set_ausd address) this next made = save-IsSavedFrom _ this made
run-IsSavedFrom (set_controller address) this next made = save-IsSavedFrom _ this made
run-IsSavedFrom (set_credit creditors) this next made = bind-IsSavedFrom _ _ this made
run-IsSavedFrom (add_creditor creditor) this next made = save-IsSavedFrom _ this made
run-IsSavedFrom (set_nft_staking address) this next made = save-IsSavedFrom _ this made
run-IsSavedFrom (set_nft_leverage address) this next made = save-IsSavedFrom _ this made
run-IsSavedFrom (set_health_checker address) this next made = save-IsSavedFrom _ this made
run-IsSavedFrom (set_migration address) this next made = bind-IsSavedFrom _ _ this made
