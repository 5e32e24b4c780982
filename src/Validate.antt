-- ===== src/Validate.antt =====
-- The script scripts/validate-config.ts, which compares the configuration with the chain. What
-- the contracts answer is a parameter; a multicall fails if one of its calls fails.
pub mod Strategies
use Prim.Native.String.{◌++◌ as str_append}
use bsc_alpaca_contract.Prelude.{
  ℕ, String, Bool, true, false, not, ◌||◌, List, [], ◌∷◌, ◌++◌, Option, none, some, Result, ok,
  throw, ◌>>=◌, ◌>>◌, guard, require, traverse, find, ◌===◌, ◌==◌, includes, lookup, Dict,
  if◌then◌else◌,
}
use bsc_alpaca_contract.Address.{compare, address_zero}
use bsc_alpaca_contract.Config.{Config, VaultsEntity, WorkersEntity, DeltaNeutralVaultsEntity}
use bsc_alpaca_contract.Workers.{WorkerLike, new_worker_like, Report, validate_config}
use bsc_alpaca_contract.Workers.Contract.{WorkerContract, Expected}

-- What the contracts at an address answer.
pub record Chain : Type 0 where
  pub router : Option String → Result String
  pub vault : Option String → Result String
  pub approved_add_strategies : String → Option String → Result Bool
  pub worker_at : String → WorkerContract
  pub delta_text : String → String → String
  pub delta_pos_id : String → String → ℕ

pub record IDexRouter : Type 0 where
  pub pancakeswap : Option String
  pub waultswap : Option String
  pub mdex : Option String
  pub spooky : Option String
  pub biswap : Option String

pub record IStrategyRouterInfo : Type 0 where
  pub strategy_address : Option String
  pub expected_router : String

pub record ITwoSidesVaultRouterInfo : Type 0 where
  pub strategy_address : Option String
  pub expected_vault : String
  pub expected_router : String

-- `strategyAddress !== ""`
abbrev pub is_set : Option String → Bool
is_set none = true
is_set (some s) = not (s === "")

unfoldable pub filter_set : List ITwoSidesVaultRouterInfo → List ITwoSidesVaultRouterInfo
filter_set [] = []
filter_set (info ∷ infos) =
    if is_set info.strategy_address then info ∷ filter_set infos else filter_set infos

abbrev pub text_of : Option String → String
text_of none = "undefined"
text_of (some s) = s

abbrev pub mis_config : String → Option String → String
mis_config what address =
    str_append what (str_append " mis-config on " (str_append (text_of address) " strat"))

-- what the checks read for an information, and the checks on it
abbrev pub check_router : IStrategyRouterInfo → String → Result (Unit {0})
check_router info router =
    guard (compare router info.expected_router) (mis_config "router" info.strategy_address)

abbrev pub check_two_sides : ITwoSidesVaultRouterInfo → String × String → Result (Unit {0})
check_two_sides info (vault, router) =
    guard (compare vault info.expected_vault) (mis_config "vault" info.strategy_address)
    >> guard (compare router info.expected_router) (mis_config "router" info.strategy_address)

-- a loop over two arrays of one length
abbrev pub check_each {ℓ κ} :
    {A : Type ℓ} {B : Type κ} → (A → B → Result (Unit {0})) → List A → List B → Result (Unit {0})
check_each check (x ∷ xs) (y ∷ ys) = let rest = check_each check xs ys in check x y >> rest
check_each check _ _ = ok tt

module _ (chain : Chain) where
  unfoldable pub validate_strategies : List IStrategyRouterInfo → Result (Unit {0})
  validate_strategies infos =
      traverse (λ (info : IStrategyRouterInfo). chain.router info.strategy_address) infos
      >>= λ results. check_each check_router infos results

  -- the two calls for one strategy
  abbrev pub read_two_sides : ITwoSidesVaultRouterInfo → Result (String × String)
  read_two_sides info = chain.vault info.strategy_address >>= λ vault.
      chain.router info.strategy_address >>= λ router. ok (vault, router)

  unfoldable pub validate_two_sides_strategies : List ITwoSidesVaultRouterInfo → Result (Unit {0})
  validate_two_sides_strategies infos = traverse read_two_sides (filter_set infos) >>= λ results.
      check_each check_two_sides (filter_set infos) results

  -- `if (isReturnFalse)`: the value that `find` returns, and not whether it found one
  abbrev pub is_true : Option Bool → Bool
  is_true none = false
  is_true (some b) = b

  unfoldable pub validate_approve_add_strategies : String → List (Option String) → Result (Unit {0})
  validate_approve_add_strategies vault_config add_strats =
      traverse (chain.approved_add_strategies vault_config) add_strats >>= λ is_approves.
      if is_true (find (λ is_approve. not is_approve) is_approves)
      then throw "> ❌ some problem found in approve add strategy, please double check"
      else ok tt

  -- the kind of worker that a name stands for, and its router
  unfoldable pub worker_kind : IDexRouter → String → Option (WorkerLike × Option String)
  worker_kind routers name =
      if includes name "DeltaNeutralPancakeswapWorker"
      then some (WorkerLike.delta_neutral_pancake, routers.pancakeswap)
      else if includes name "PancakeswapWorker"
      then some (WorkerLike.pancake, routers.pancakeswap)
      else if includes name "WaultswapWorker"
      then some (WorkerLike.wault, routers.waultswap)
      else if includes name "CakeMaxiWorker"
      then some (WorkerLike.cake_maxi, routers.pancakeswap)
      else if includes name "MdexWorker"
      then some (WorkerLike.mdex, routers.mdex)
      else if includes name "SpookyWorker"
      then some (WorkerLike.spooky, routers.spooky)
      else if includes name "TombWorker"
      then some (WorkerLike.tomb, routers.spooky)
      else if includes name "BiswapWorker"
      then some (WorkerLike.biswap, routers.biswap)
      else none

  abbrev pub report_of :
      String → String → WorkersEntity → Option (WorkerLike × Option String) → Option Report
  report_of vault token info none = none
  report_of vault token info (some (kind, router)) = some (
      validate_config (new_worker_like kind) (chain.worker_at info.address) (record {
        vault_address = vault;
        vault_token = token;
        router_address = text_of router;
        worker_info = info;
      }))

  -- what is logged for a worker of the vault at an address, with a token; `none` if it is skipped
  unfoldable pub validate_worker : String → String → WorkersEntity → IDexRouter → Option Report
  validate_worker vault token info routers =
      if info.name === "BETH-ETH PancakeswapWorker"
      then none
      else report_of vault token info (worker_kind routers info.name)

  -- the checks on a delta neutral vault, up to the first that fails
  unfoldable pub validate_delta_vault : (String → ℕ) → DeltaNeutralVaultsEntity → Result (Unit {0})
  validate_delta_vault number_of v = do
    guard (compare (chain.delta_text v.address "assetVault") v.asset_vault) "❌ assetVault mis-match"
    guard (compare (chain.delta_text v.address "stableVault") v.stable_vault)
        "❌ stableVault mis-match"
    guard (compare (chain.delta_text v.address "assetToken") v.asset_token) "❌ assetToken mis-match"
    guard (compare (chain.delta_text v.address "stableToken") v.stable_token)
        "❌ stableToken mis-match"
    guard (chain.delta_pos_id v.address "assetVaultPosId" == number_of v.asset_vault_pos_id)
        "❌ assetVaultPosId mis-match"
    guard (chain.delta_pos_id v.address "stableVaultPosId" == number_of v.stable_vault_pos_id)
        "❌ stableVaultPosId mis-match"
    ok tt

-- `chainId === 56 || chainId === 97`
unfoldable pub is_bsc : ℕ → Bool
is_bsc chain_id = (chain_id == 56) || (chain_id == 97)

-- `chainId === 4002 || chainId === 250`
unfoldable pub is_fantom : ℕ → Bool
is_fantom chain_id = (chain_id == 4002) || (chain_id == 250)
