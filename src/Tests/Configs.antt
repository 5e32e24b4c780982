-- ===== src/Tests/Configs.antt =====
-- The configuration file and the converter on a small configuration.
use Prim.Native.String.{◌++◌ as str_append}
use bsc_alpaca_contract.Prelude.{
  map, String, [], ◌∷◌, none, some, ◌≡◌, refl, true, ◌≢◌, ok, require, traverse, find, change_at,
  ◌===◌, insert, to_lower_case, lower, codes_eq,
}
use bsc_alpaca_contract.Address.{compare}
use bsc_alpaca_contract.Config.{Config, VaultsEntity, WorkersEntity, DeltaNeutralVaultsEntity}
use bsc_alpaca_contract.Entities.{all_workers, map_worker, map_workers}
use bsc_alpaca_contract.Entities.Names.{map_workers-names}
use bsc_alpaca_contract.ConfigFile.{
  find_vault_idx, is_vault, add_or_set_vault_worker, ConfigFileHelper, with_strategy,
  default_delta_neutral_vaults_entity, add_or_set_token, add_or_set_worker_strategy,
  add_or_set_delta_neutral_vaults, save, write_config_file,
}
use bsc_alpaca_contract.ConfigFile.Operations.{Operation, run, IsSavedFrom, run-IsSavedFrom}
use bsc_alpaca_contract.ConfigFile.Workers.{
  add_or_set_vault_worker-find, add_or_set_worker_strategy-last,
  add_or_set_delta_neutral_vaults-find,
}
use bsc_alpaca_contract.Converter.{
  convert_creditor_name_to_address, convert_addresses_to_vaults, convert_delta_symbol_to_obj,
  convert_addresses_to_workers,
}
use bsc_alpaca_contract.Converter.Found.{
  creditor_address, convert_creditor_name_to_address-traverse, convert_addresses_to_vaults-traverse,
  convert_delta_symbol_to_obj-traverse, convert_addresses_to_workers-traverse,
}

abbrev pub toy_worker : WorkersEntity
toy_worker = record {
  name = "CAKE-WBNB PancakeswapWorker";
  address = "0xAb";
  deployed_block = 7;
  config = "0x02";
  p_id = 3;
  staking_token = "0x03";
  staking_token_at = "0x04";
  strategies =
      ("StrategyAddAllBaseToken", "0x05")
      ∷ ("StrategyLiquidate", "0x06")
      ∷ ("StrategyAddTwoSidesOptimal", "0x07")
      ∷ ("StrategyWithdrawMinimizeTrading", "0x08")
      ∷ ("StrategyPartialCloseLiquidate", "")
      ∷ ("StrategyPartialCloseMinimizeTrading", "")
      ∷ [];
}

abbrev pub toy_vault : VaultsEntity
toy_vault = record {
  name = "BNB VAULT";
  symbol = "ibWBNB";
  address = "0xCd";
  deployed_block = 5;
  base_token = "0x0b";
  debt_token = "0x0c";
  config = "0x0d";
  triple_slope_model = "0x0e";
  strategy_add_two_sides_optimal = [];
  workers = toy_worker ∷ [];
}

abbrev other_vault : VaultsEntity
other_vault = record toy_vault { address = "0xEe"; workers = [] }

abbrev pub toy_config : Config
toy_config = record {
  op_multi_sig = "0x10";
  proxy_admin = "0x11";
  timelock = "0x12";
  multi_call = "0x13";
  multi_call3 = "0x14";
  ausd_staking = none;
  shield = none;
  revenue_treasury = none;
  delta_neutral_vault_health_checker = none;
  merkle_distributor = none;
  grazing_range = none;
  fair_launch = none;
  mini_fl = none;
  yield_sources = [];
  tokens = ("CAKE", "0x15") ∷ [];
  lp_tokens = none;
  shared_strategies = [];
  shared_config = record {
    two_slope_model = none;
    triple_slope_model = "0x16";
    triple_slope_model_stable_20_max_150 = none;
    triple_slope_model_103 = none;
    w_native_relayer = "0x17";
    worker_config = "0x18";
    pancakeswap_single_asset_worker_config = none;
  };
  oracle = record {
    oracle_medianizer = "0x19";
    chain_link_oracle = "0x1a";
    simple_oracle = "0x1b";
    delta_neutral_oracle = none;
  };
  vaults = toy_vault ∷ other_vault ∷ [];
  delta_neutral_vaults = record default_delta_neutral_vaults_entity { symbol = "n3x" } ∷ [];
  automated_vault_controller = none;
  automated_vault_executor = none;
  directional_vault_executor = none;
  creditors = none;
  nft = none;
}

abbrev toy_helper : ConfigFileHelper
toy_helper = record { config = toy_config; file_path = ".mainnet.json"; files = [] }

abbrev saved : Config → ConfigFileHelper
saved config = record {
  config = config;
  file_path = ".mainnet.json";
  files = (".mainnet.json", config) ∷ [];
}

abbrev with_busd : Config
with_busd = record toy_config { tokens = ("CAKE", "0x15") ∷ ("BUSD", "0x2a") ∷ [] }

set_busd : run (Operation.set_token "BUSD" "0x2a") toy_helper ≡ ok (saved with_busd)
unfolding run add_or_set_token save write_config_file insert
set_busd = refl

run-IsSavedFrom_example : IsSavedFrom toy_helper (saved with_busd)
run-IsSavedFrom_example =
    run-IsSavedFrom (Operation.set_token "BUSD" "0x2a") toy_helper (saved with_busd) set_busd

abbrev toy_delta : DeltaNeutralVaultsEntity
toy_delta = record default_delta_neutral_vaults_entity { symbol = "n8x"; name = "BNB" }

abbrev with_delta : Config
with_delta = record toy_config {
  delta_neutral_vaults =
      record default_delta_neutral_vaults_entity { symbol = "n3x" } ∷ toy_delta ∷ [];
}

set_delta : add_or_set_delta_neutral_vaults "n8x" toy_delta toy_helper ≡ ok (saved with_delta)
unfolding add_or_set_delta_neutral_vaults save write_config_file insert
set_delta = refl

add_or_set_delta_neutral_vaults-find_example :
    (find (λ dv. dv.symbol === "n8x") with_delta.delta_neutral_vaults ≡ some toy_delta)
    × ((other : String)
        → "n8x" ≢ other
        → find (λ dv. dv.symbol === other) with_delta.delta_neutral_vaults
          ≡ find (λ dv. dv.symbol === other) toy_config.delta_neutral_vaults)
add_or_set_delta_neutral_vaults-find_example =
    add_or_set_delta_neutral_vaults-find "n8x" toy_delta toy_helper (saved with_delta) refl
      set_delta

toy_worker-found : compare "0xAb" "0xaB" ≡ true
unfolding compare to_lower_case lower codes_eq
toy_worker-found = refl

add_or_set_worker_strategy-last_example :
    (next : ConfigFileHelper) × (add_or_set_worker_strategy "0xAb" "StrategyLiquidate" "0x66"
        toy_helper
      ≡ ok next)
    × (next.config.vaults
        ≡ record toy_vault {
          workers = change_at 0 (with_strategy "StrategyLiquidate" "0x66") toy_vault.workers;
        }
          ∷ other_vault
          ∷ [])
unfolding compare to_lower_case lower codes_eq
add_or_set_worker_strategy-last_example =
    add_or_set_worker_strategy-last "0xAb" "StrategyLiquidate" "0x66" toy_helper []
      (other_vault ∷ []) toy_vault 0 refl refl (refl, tt)

convert_addresses_to_vaults-traverse_example :
    convert_addresses_to_vaults toy_config ("0xCD" ∷ "0xee" ∷ [])
    ≡ traverse
        (λ input.
          require
            (str_append "ERROR NOT FOUND VAULT ADDRESS :" input)
            (find (λ v. compare v.address input) toy_config.vaults))
        ("0xCD" ∷ "0xee" ∷ [])
convert_addresses_to_vaults-traverse_example =
    convert_addresses_to_vaults-traverse toy_config ("0xCD" ∷ "0xee" ∷ [])

convert_delta_symbol_to_obj-traverse_example :
    convert_delta_symbol_to_obj toy_config ("N3X" ∷ "n9x" ∷ [])
    ≡ traverse
        (λ symbol.
          require
            (str_append "ERROR NOT FOUND VAULT ADDRESS :" symbol)
            (find (λ dlt. compare dlt.symbol symbol) toy_config.delta_neutral_vaults))
        ("N3X" ∷ "n9x" ∷ [])
convert_delta_symbol_to_obj-traverse_example =
    convert_delta_symbol_to_obj-traverse toy_config ("N3X" ∷ "n9x" ∷ [])

convert_addresses_to_workers-traverse_example :
    convert_addresses_to_workers toy_config ("0xab" ∷ "0xff" ∷ [])
    ≡ traverse
        (λ input.
          require
            (str_append "ERROR NOT FOUND WORKER ADDRESS :" input)
            (find (λ w. compare w.address input) (all_workers toy_config.vaults)))
        ("0xab" ∷ "0xff" ∷ [])
convert_addresses_to_workers-traverse_example =
    convert_addresses_to_workers-traverse toy_config ("0xab" ∷ "0xff" ∷ [])

abbrev new_worker : WorkersEntity
new_worker = record toy_worker { name = "USDT-WBNB PancakeswapWorker"; address = "0xAc" }

toy_vault-found : find_vault_idx "ibWBNB" toy_config ≡ some 0
unfolding find_vault_idx is_vault
toy_vault-found = refl

add_or_set_vault_worker-find_example :
    (next : ConfigFileHelper) × (changed : VaultsEntity) × (add_or_set_vault_worker "ibWBNB"
        new_worker toy_helper
      ≡ ok next)
    × (next.config.vaults ≡ changed ∷ other_vault ∷ [])
    × (find (λ w. w.name === new_worker.name) changed.workers ≡ some new_worker)
    × ((other : String)
        → new_worker.name ≢ other
        → find (λ w. w.name === other) changed.workers
          ≡ find (λ w. w.name === other) toy_vault.workers)
add_or_set_vault_worker-find_example =
    add_or_set_vault_worker-find "ibWBNB" new_worker toy_helper [] (other_vault ∷ []) toy_vault refl
      toy_vault-found

abbrev with_creditor : Config
with_creditor = record toy_config {
  creditors = some (record { name = "Vault"; address = "0x51" } ∷ []);
}

convert_creditor_name_to_address-traverse_example :
    convert_creditor_name_to_address with_creditor ("vault" ∷ "pool" ∷ [])
    ≡ traverse (creditor_address with_creditor) ("vault" ∷ "pool" ∷ [])
convert_creditor_name_to_address-traverse_example =
    convert_creditor_name_to_address-traverse with_creditor ("vault" ∷ "pool" ∷ [])

toy_workers-mapped :
    map_workers toy_config ("CAKE-WBNB PancakeswapWorker" ∷ []) ≡ ok (toy_worker ∷ [])
unfolding map_workers map_worker all_workers
toy_workers-mapped = refl

map_workers-names_example : map (λ w. w.name) (toy_worker ∷ []) ≡ "CAKE-WBNB PancakeswapWorker" ∷ []
map_workers-names_example =
    map_workers-names toy_config ("CAKE-WBNB PancakeswapWorker" ∷ []) (toy_worker ∷ [])
      toy_workers-mapped
