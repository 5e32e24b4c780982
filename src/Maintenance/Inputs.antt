-- ===== src/Maintenance/Inputs.antt =====
-- The inputs of the scripts of deploy/exec/workers/config and deploy/exec/worker-config/config, and
-- what they are completed to. The inputs that are written into a script are arguments.
use Prim.Native.String.{◌++◌ as str_append}
use bsc_alpaca_contract.Prelude.{
  ℕ, String, Bool, true, false, not, ◌&&◌, ◌===◌, ◌==◌, List, [], ◌∷◌, Option, none, some, Result,
  ok, ◌>>=◌, ◌>>◌, guard, or_else, require, traverse, find, map, includes, if◌then◌else◌,
}
use mathlib.Core.Option
use bsc_alpaca_contract.Config.{Config, VaultsEntity, WorkersEntity}
use bsc_alpaca_contract.Entities.{all_workers}
use bsc_alpaca_contract.Timelock.{Request, Item, Param}
use bsc_alpaca_contract.DeployWorkers.Inputs.{token_address}

pub record WorkerReinvestConfigInput : Type 0 where
  pub worker_name : String
  pub reinvest_bounty_bps : String
  pub reinvest_threshold : String
  pub reinvest_path : Option (List String)

pub record WorkerReinvestConfig : Type 0 where
  pub worker_name : String
  pub address : String
  pub reinvest_bounty_bps : String
  pub reinvest_threshold : String
  pub reinvest_path : List String

-- `allWorkers.find`, or the error
unfoldable pub find_by_name : Config → String → Result WorkersEntity
find_by_name config name =
    require (str_append "could not find " name)
      (find (λ worker. worker.name === name) (all_workers config.vaults))

-- the path's tokens, if there is a path
abbrev pub path_addresses : Config → Option (List String) → Result (List String)
path_addresses config none = ok []
path_addresses config (some path) = traverse (token_address config) path

abbrev pub is_missing : Option (List String) → Bool
is_missing none = true
is_missing (some path) = false

-- `!name.includes("CakeMaxiWorker") && !path`
unfoldable pub lacks_path : WorkerReinvestConfigInput → Bool
lacks_path input =
    not (includes input.worker_name "CakeMaxiWorker") && is_missing input.reinvest_path

-- a text with a worker's name in it
abbrev pub named : String → WorkersEntity → String
named text worker = str_append text worker.name

-- what an input is completed to
unfoldable pub completed :
    WorkerReinvestConfigInput → WorkersEntity → List String → String → WorkerReinvestConfig
completed input hit path threshold = record {
  worker_name = hit.name;
  address = hit.address;
  reinvest_bounty_bps = input.reinvest_bounty_bps;
  reinvest_threshold = threshold;
  reinvest_path = path;
}

abbrev pub data_request : ℕ → String → String → String → List String → List Param → String → Request
data_request chain_id info target signature types params eta = record {
  chain_id = chain_id;
  info = info;
  target = target;
  value = "0";
  signature = signature;
  param_types = types;
  params = params;
  eta = eta;
}

abbrev pub text_param : String → Param
text_param s = Param.item (Item.text s)

-- the request of one worker, by its kind
unfoldable pub reinvest_request : ℕ → String → WorkerReinvestConfig → Request
reinvest_request chain_id eta r =
    if includes r.worker_name "CakeMaxiWorker"
    then data_request chain_id (str_append "setting reinvest params for " r.worker_name) r.address
        "setReinvestConfig(uint256,uint256)" ("uint256" ∷ "uint256" ∷ [])
        (text_param r.reinvest_bounty_bps ∷ text_param r.reinvest_threshold ∷ []) eta
    else data_request chain_id (str_append "setting reinvest params for " r.worker_name) r.address
        "setReinvestConfig(uint256,uint256,address[])" ("uint256" ∷ "uint256" ∷ "address[]" ∷ [])
        (text_param r.reinvest_bounty_bps
          ∷ text_param r.reinvest_threshold
          ∷ Param.array (map Item.text r.reinvest_path)
          ∷ [])
        eta

-- the request of `setMaxReinvestBountyBps`
unfoldable pub max_bounty_request : ℕ → String → String → WorkersEntity → Request
max_bounty_request chain_id bps eta worker =
    data_request chain_id (named "setting max reinvest bounty bps for " worker) worker.address
      "setMaxReinvestBountyBps(uint256)" ("uint256" ∷ []) (text_param bps ∷ []) eta

-- the callback of `workerInputs.map`
unfoldable pub reinvest_config :
    (String → Result String) → Config → WorkerReinvestConfigInput → Result WorkerReinvestConfig
reinvest_config parse_ether config input = do
  hit ← find_by_name config input.worker_name
  guard (not (lacks_path input)) (str_append input.worker_name " must have a REINVEST_PATH")
  path ← path_addresses config input.reinvest_path
  threshold ← parse_ether input.reinvest_threshold
  ok (completed input hit path threshold)

pub record RewardPathInput : Type 0 where
  pub worker_name : String
  pub reward_path : Option (List String)

pub record RewardPathConfig : Type 0 where
  pub worker_name : String
  pub address : String
  pub reward_path : List String

-- the callback of `workerInputs.map` in set-reward-path.ts
unfoldable pub reward_path_config : Config → RewardPathInput → Result RewardPathConfig
reward_path_config config input = do
  hit ← find_by_name config input.worker_name
  path ← path_addresses config input.reward_path
  ok (record { worker_name = hit.name; address = hit.address; reward_path = path })

unfoldable pub reward_path_request : ℕ → String → RewardPathConfig → Request
reward_path_request chain_id eta r =
    data_request chain_id (str_append "setting rewardPath " r.worker_name) r.address
      "setRewardPath(address[])" ("address[]" ∷ []) (Param.array (map Item.text r.reward_path) ∷ [])
      eta

-- `BigNumberish`: a text, a number, or an object of the library's class `BigNumber`.
pub data BigNumberish : Type 0 where
  digits : String → BigNumberish
  plain : ℕ → BigNumberish
  big : ℕ → BigNumberish

pub record SetConfigInput : Type 0 where
  pub worker : String
  pub accept_debt : Option Bool
  pub work_factor : Option BigNumberish
  pub kill_factor : Option BigNumberish
  pub max_price_diff : Option BigNumberish

pub record SetConfigDerivedInput : Type 0 where
  pub worker_name : String
  pub worker_address : String
  pub owner_address : String
  pub worker_config_address : String
  pub accept_debt : Bool
  pub work_factor : BigNumberish
  pub kill_factor : BigNumberish
  pub max_price_diff : BigNumberish

-- What `WorkerConfig.workers` answers for a worker.
pub record CurrentConfig : Type 0 where
  pub accept_debt : Bool
  pub work_factor : BigNumberish
  pub kill_factor : BigNumberish
  pub max_price_diff : BigNumberish

-- whether a value counts as true
abbrev pub counts_as_true : BigNumberish → Bool
counts_as_true (BigNumberish.digits s) = not (s === "")
counts_as_true (BigNumberish.plain n) = not (n == 0)
counts_as_true (BigNumberish.big n) = true

-- `given || current`
abbrev pub value_or : Option BigNumberish → BigNumberish → BigNumberish
value_or none current = current
value_or (some given) current = if counts_as_true given then given else current

abbrev pub flag_or : Option Bool → Bool → Bool
flag_or none current = current
flag_or (some given) current = given

-- the loop over the vaults, up to its `break`
unfoldable pub first_worker : String → List VaultsEntity → Option WorkersEntity
first_worker name [] = none
first_worker name (vault ∷ vaults) =
    or_else (find (λ w. w.name === name) vault.workers) (first_worker name vaults)

abbrev pub derived :
    (String → String)
    → (String → String → CurrentConfig)
    → SetConfigInput
    → WorkersEntity
    → SetConfigDerivedInput
derived owner current input worker = record {
  worker_name = input.worker;
  worker_address = worker.address;
  owner_address = owner worker.config;
  worker_config_address = worker.config;
  accept_debt = flag_or input.accept_debt (current worker.config worker.address).accept_debt;
  work_factor = value_or input.work_factor (current worker.config worker.address).work_factor;
  kill_factor = value_or input.kill_factor (current worker.config worker.address).kill_factor;
  max_price_diff =
      value_or input.max_price_diff (current worker.config worker.address).max_price_diff;
}

abbrev add_derived :
    Option SetConfigDerivedInput → List SetConfigDerivedInput → List SetConfigDerivedInput
add_derived none rest = rest
add_derived (some d) rest = d ∷ rest

-- `inputs`: an update of a worker that is not found adds nothing
unfoldable pub derived_inputs :
    (String → String)
    → (String → String → CurrentConfig)
    → Config
    → List SetConfigInput
    → List SetConfigDerivedInput
derived_inputs owner current config [] = []
derived_inputs owner current config (u ∷ updates) =
    add_derived (Option.map (derived owner current u) (first_worker u.worker config.vaults))
      (derived_inputs owner current config updates)

pub record SetParamsInput : Type 0 where
  pub vault_symbol : String
  pub min_debt_size_wei : Option BigNumberish
  pub reserve_pool_bps : Option BigNumberish
  pub kill_prize_bps : Option BigNumberish
  pub interest_model : Option String
  pub treasury_kill_bps : Option BigNumberish
  pub treasury_addr : Option String
  pub exact_eta : String

pub record SetParamsDerivedInput : Type 0 where
  pub owner : String
  pub vault_symbol : String
  pub min_debt_size_wei : BigNumberish
  pub reserve_pool_bps : BigNumberish
  pub kill_prize_bps : BigNumberish
  pub interest_model : String
  pub treasury_kill_bps : BigNumberish
  pub treasury_addr : String
  pub wrapped_native : String
  pub wnative_relayer : String
  pub fairlaunch : String
  pub vault_config : String
  pub exact_eta : String

-- What the contract of a vault's configuration answers.
pub record VaultParams : Type 0 where
  pub owner : String
  pub min_debt_size : ℕ
  pub reserve_pool_bps : ℕ
  pub kill_bps : ℕ
  pub interest_model : String
  pub treasury : String
  pub treasury_kill_bps : ℕ
  pub wrapped_native : String
  pub wnative_relayer : String
  pub fairlaunch : String

-- `given || current` on texts
abbrev pub text_or : Option String → String → String
text_or none current = current
text_or (some given) current = if given === "" then current else given

-- the callback of `NEW_PARAMS.map`
unfoldable pub derived_params :
    (String → VaultParams) → Config → SetParamsInput → Result SetParamsDerivedInput
derived_params on_chain config n = do
  vault ←
      require (str_append "error: unable to map " (str_append n.vault_symbol " to any vault"))
        (find (λ v. v.symbol === n.vault_symbol) config.vaults)
  let p = on_chain vault.config
  ok (record {
    owner = p.owner;
    vault_symbol = n.vault_symbol;
    min_debt_size_wei = value_or n.min_debt_size_wei (BigNumberish.big p.min_debt_size);
    reserve_pool_bps = value_or n.reserve_pool_bps (BigNumberish.big p.reserve_pool_bps);
    kill_prize_bps = value_or n.kill_prize_bps (BigNumberish.big p.kill_bps);
    interest_model = text_or n.interest_model p.interest_model;
    treasury_kill_bps = value_or n.treasury_kill_bps (BigNumberish.big p.treasury_kill_bps);
    treasury_addr = text_or n.treasury_addr p.treasury;
    wrapped_native = p.wrapped_native;
    wnative_relayer = p.wnative_relayer;
    fairlaunch = p.fairlaunch;
    vault_config = vault.config;
    exact_eta = n.exact_eta;
  })

pub record CallersInput : Type 0 where
  pub vault_symbol : String
  pub whitelisted_callers : List String
  pub is_enable : Bool

pub record CallersDerivedInput : Type 0 where
  pub vault_config : String
  pub whitelisted_callers : List String
  pub is_enable : Bool

-- the callback of `TARGETED_VAULT_CONFIG.map`
unfoldable pub derived_callers : Config → CallersInput → Result CallersDerivedInput
derived_callers config tv = do
  vault ←
      require (str_append "error: not found vault with " (str_append tv.vault_symbol " symbol"))
        (find (λ v. v.symbol === tv.vault_symbol) config.vaults)
  guard (not (vault.config === "")) "error: not found config address"
  ok (record {
    vault_config = vault.config;
    whitelisted_callers = tv.whitelisted_callers;
    is_enable = tv.is_enable;
  })
