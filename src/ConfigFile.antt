-- ===== src/ConfigFile.antt =====
-- The class `ConfigFileHelper` of deploy/helper/config-file-helper.ts. The state of the class is
-- `ConfigFileHelper`, together with the files that it writes: a file stands for the
-- configuration that its JSON text is made of. A position stands for a reference to an element.
pub mod Settings
pub mod Operations
pub mod Workers
use Prim.Native.String.{◌++◌ as str_append}
use bsc_alpaca_contract.Prelude.{
  ℕ, suc, ◌+◌, String, Bool, true, false, not, ◌||◌, List, [], ◌∷◌, ◌++◌, Option, none, some,
  Result, ok, throw, ◌>>=◌, ◌>>◌, guard, require, find_index, put_at, upsert, set, change_at,
  get_elem?, ◌===◌, Dict, lookup, insert, if◌then◌else◌,
}
use bsc_alpaca_contract.Address.{compare, address_zero}
use bsc_alpaca_contract.Config.{
  Config, Creditor, Nft, AutomateVaultController, AutomatedVaultExecutor, VaultsEntity,
  WorkersEntity, DeltaNeutralVaultsEntity, YieldPoolsEntity, YieldSource,
}
use bsc_alpaca_contract.Entities.{Networks, get_config}

pub record ConfigFileHelper : Type 0 where
  pub config : Config
  pub file_path : String
  pub files : Dict Config

-- whether a text that may be missing counts as true
unfoldable pub is_truthy : Option String → Bool
is_truthy none = false
is_truthy (some s) = not (s === "")

-- the file for `network.name`
unfoldable pub path_for : String → Result String
path_for name =
    if (name === "mainnet") || (name === "mainnetfork")
    then ok ".mainnet.json"
    else if name === "testnet"
    then ok ".testnet.json"
    else if (name === "fantom_mainnet") || (name === "fantom_mainnetfork")
    then ok ".fantom_mainnet.json"
    else if name === "fantom_testnet"
    then ok ".fantom_testnet.json"
    else throw "Unsupported network"

unfoldable pub file_path_or : Option String → String → Result String
file_path_or none name = path_for name
file_path_or (some path) name = if path === "" then path_for name else ok path

-- the constructor
unfoldable pub new : Networks → String → Dict Config → Option String → Result ConfigFileHelper
new networks name files override_file_path = do
  config ← get_config networks name
  path ← file_path_or override_file_path name
  ok (record { config = config; file_path = path; files = files })

unfoldable pub write_config_file : Config → ConfigFileHelper → ConfigFileHelper
write_config_file config this = record this { files = insert this.file_path config this.files }

-- the new configuration in `this.config`, and `this._writeConfigFile(this.config)`
unfoldable pub save : Config → ConfigFileHelper → Result ConfigFileHelper
save config this = ok (write_config_file config (record this { config = config }))

unfoldable pub is_vault : String → VaultsEntity → Bool
is_vault key v = (v.name === key) || (v.symbol === key) || compare v.address key

unfoldable pub is_delta_vault : String → DeltaNeutralVaultsEntity → Bool
is_delta_vault key v = (v.name === key) || (v.symbol === key) || compare v.address key

unfoldable pub find_vault_idx : String → Config → Option ℕ
find_vault_idx key config = find_index (is_vault key) config.vaults

unfoldable pub find_delta_neutral_vault_idx : String → Config → Option ℕ
find_delta_neutral_vault_idx key config =
    find_index (is_delta_vault key) config.delta_neutral_vaults

unfoldable pub add_or_set_token : String → String → ConfigFileHelper → Result ConfigFileHelper
add_or_set_token key address this =
    save (record this.config { tokens = insert key address this.config.tokens }) this

-- the vault's workers, with the worker of that name replaced or added
abbrev pub with_worker : WorkersEntity → VaultsEntity → VaultsEntity
with_worker value vault = record vault {
  workers = upsert (λ w. w.name === value.name) value vault.workers;
}

unfoldable pub add_or_set_vault_worker :
    String → WorkersEntity → ConfigFileHelper → Result ConfigFileHelper
add_or_set_vault_worker key value this = do
  idx ←
      require "[ConfigFileHelper::addOrSetVaultWorker]: Vault not found"
        (find_vault_idx key this.config)
  save (record this.config { vaults = change_at idx (with_worker value) this.config.vaults }) this

abbrev pub with_two_sides : String → String → VaultsEntity → VaultsEntity
with_two_sides key value vault = record vault {
  strategy_add_two_sides_optimal = insert key value vault.strategy_add_two_sides_optimal;
}

unfoldable pub set_vault_twoside_optimal_on_key :
    String → String → String → ConfigFileHelper → Result ConfigFileHelper
set_vault_twoside_optimal_on_key vault_key key value this = do
  idx ←
      require "[ConfigFileHelper::setVaultTwosideOptimalOnKey]: Vault not found"
        (find_vault_idx vault_key this.config)
  vault ← require "TypeError" (get_elem? this.config.vaults idx)
  guard (is_truthy (lookup key vault.strategy_add_two_sides_optimal)) (
      str_append
        "[ConfigFileHelper::setVaultTwosideOptimalOnKey]: Vaults.StrategyAddTwoSidesOptimal key ["
        (str_append key "] not found"))
  save (record this.config { vaults = change_at idx (with_two_sides key value) this.config.vaults })
      this

abbrev pub with_interest_model : String → VaultsEntity → VaultsEntity
with_interest_model model vault = record vault { triple_slope_model = model }

unfoldable pub set_vault_interest_model :
    String → String → ConfigFileHelper → Result ConfigFileHelper
set_vault_interest_model key model this = do
  idx ←
      require "[ConfigFileHelper::setVaultInterestModelOnKey]: Vault not found"
        (find_vault_idx key this.config)
  save
      (record this.config { vaults = change_at idx (with_interest_model model) this.config.vaults })
      this

-- where a worker stands: its vault and its place in the vault
pub record WorkerRef : Type 0 where
  pub vault : ℕ
  pub worker : ℕ

abbrev pub ref_or : ℕ → Option ℕ → Option WorkerRef → Option WorkerRef
ref_or i none worker = worker
ref_or i (some j) worker = some (record { vault = i; worker = j })

-- the `find` over the vaults: its callback never returns a true value, so that each vault with
-- such a worker assigns `worker` again
unfoldable pub worker_ref : String → ℕ → List VaultsEntity → Option WorkerRef → Option WorkerRef
worker_ref address i [] worker = worker
worker_ref address i (vault ∷ vaults) worker =
    worker_ref address (suc i) vaults
      (ref_or i (find_index (λ w. compare w.address address) vault.workers) worker)

abbrev pub with_strategy : String → String → WorkersEntity → WorkersEntity
with_strategy key value w = record w { strategies = insert key value w.strategies }

-- `worker.strategies[key] = value`
abbrev pub assign_strategy : WorkerRef → String → String → List VaultsEntity → List VaultsEntity
assign_strategy ref key value vaults =
    change_at ref.vault
      (λ vault. record vault {
        workers = change_at ref.worker (with_strategy key value) vault.workers;
      })
      vaults

unfoldable pub add_or_set_worker_strategy :
    String → String → String → ConfigFileHelper → Result ConfigFileHelper
add_or_set_worker_strategy address key value this = do
  ref ←
      require
        (str_append "[ConfigFileHelper::addOrsetWorkerStrategy]: WorkerAddress ["
          (str_append address "] not found"))
        (worker_ref address 0 this.config.vaults none)
  save (record this.config { vaults = assign_strategy ref key value this.config.vaults }) this

unfoldable pub set_shared_strategy_on_key :
    String → String → String → ConfigFileHelper → Result ConfigFileHelper
set_shared_strategy_on_key key strategy_key value this = do
  strategies ←
      require
        (str_append "[ConfigFileHelper::setSharedStrategyOnKey]: SharedStrategies key ["
          (str_append key "] not found"))
        (lookup key this.config.shared_strategies)
  save
      (record this.config {
        shared_strategies =
            insert key (insert strategy_key value strategies) this.config.shared_strategies;
      })
      this

abbrev pub default_delta_neutral_vaults_entity : DeltaNeutralVaultsEntity
default_delta_neutral_vaults_entity = record {
  name = "";
  symbol = "";
  address = address_zero;
  deployed_block = 0;
  config = address_zero;
  asset_token = address_zero;
  stable_token = address_zero;
  asset_vault = address_zero;
  stable_vault = address_zero;
  asset_delta_worker = address_zero;
  stable_delta_worker = address_zero;
  gateway = address_zero;
  oracle = address_zero;
  asset_vault_pos_id = "0";
  stable_vault_pos_id = "0";
}

-- the entities once the `findIndex` is known
abbrev pub put_config :
    Option ℕ → String → String → List DeltaNeutralVaultsEntity → List DeltaNeutralVaultsEntity
put_config none symbol value vaults =
    vaults ++ (record default_delta_neutral_vaults_entity { symbol = symbol; config = value } ∷ [])
put_config (some i) symbol value vaults =
    change_at i (λ delta_vault. record delta_vault { config = value }) vaults

unfoldable pub add_or_set_delta_neutral_vaults_config :
    String → String → ConfigFileHelper → Result ConfigFileHelper
add_or_set_delta_neutral_vaults_config symbol value this =
    save
      (record this.config {
        delta_neutral_vaults =
            put_config (find_index (λ dv. dv.symbol === symbol) this.config.delta_neutral_vaults)
              symbol value this.config.delta_neutral_vaults;
      })
      this

unfoldable pub add_or_set_delta_neutral_vaults :
    String → DeltaNeutralVaultsEntity → ConfigFileHelper → Result ConfigFileHelper
add_or_set_delta_neutral_vaults symbol value this =
    save
      (record this.config {
        delta_neutral_vaults =
            upsert (λ dv. dv.symbol === symbol) value this.config.delta_neutral_vaults;
      })
      this
