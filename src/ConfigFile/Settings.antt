-- ===== src/ConfigFile/Settings.antt =====
-- The methods of `ConfigFileHelper` on gateways, positions, pools, creditors, Nft and executors.
use Prim.Native.String.{◌++◌ as str_append}
use bsc_alpaca_contract.Prelude.{
  String, List, [], ◌∷◌, ◌++◌, Option, none, some, Result, ◌>>=◌, require, change_at, lookup,
  insert,
}
use bsc_alpaca_contract.Config.{
  Creditor, Nft, AutomateVaultController, AutomatedVaultExecutor, DeltaNeutralVaultsEntity,
  YieldPoolsEntity, YieldSource,
}
use bsc_alpaca_contract.ConfigFile.{ConfigFileHelper, save, find_delta_neutral_vault_idx}

abbrev with_gateway : String → DeltaNeutralVaultsEntity → DeltaNeutralVaultsEntity
with_gateway gateway vault = record vault { gateway = gateway }

unfoldable pub set_delta_neutral_gateway :
    String → String → ConfigFileHelper → Result ConfigFileHelper
set_delta_neutral_gateway key value this = do
  idx ←
      require
        (str_append "[ConfigFileHelper::setDeltaNeutralGateway]: DeltaNeutralVaults not found ["
          (str_append key "]"))
        (find_delta_neutral_vault_idx key this.config)
  save
      (record this.config {
        delta_neutral_vaults = change_at idx (with_gateway value) this.config.delta_neutral_vaults;
      })
      this

-- `assetVaultPosId || ""`
abbrev text_or_empty : Option String → String
text_or_empty none = ""
text_or_empty (some s) = s

abbrev with_positions : String → Option String → DeltaNeutralVaultsEntity → DeltaNeutralVaultsEntity
with_positions stable asset vault = record vault {
  stable_vault_pos_id = stable;
  asset_vault_pos_id = text_or_empty asset;
}

unfoldable pub set_delta_neutral_vaults_init_position_ids :
    String → String → Option String → ConfigFileHelper → Result ConfigFileHelper
set_delta_neutral_vaults_init_position_ids key stable asset this = do
  idx ←
      require
        (str_append
          "[ConfigFileHelper::setDeltaNeutralVaultsInitPositionIds]: DeltaNeutralVaults not found ["
          (str_append key "]"))
        (find_delta_neutral_vault_idx key this.config)
  save
      (record this.config {
        delta_neutral_vaults =
            change_at idx (with_positions stable asset) this.config.delta_neutral_vaults;
      })
      this

abbrev with_pool : YieldPoolsEntity → YieldSource → YieldSource
with_pool pool source = record source { pools = source.pools ++ (pool ∷ []) }

-- `addOrSetYielPool`
unfoldable pub add_or_set_yiel_pool :
    String → YieldPoolsEntity → ConfigFileHelper → Result ConfigFileHelper
add_or_set_yiel_pool key pool this = do
  source ←
      require "[ConfigFileHelper::addOrSetYieldPool]: YieldSource not found"
        (lookup key this.config.yield_sources)
  save
      (record this.config {
        yield_sources = insert key (with_pool pool source) this.config.yield_sources;
      })
      this

unfoldable pub set_ausd_staking : String → ConfigFileHelper → Result ConfigFileHelper
set_ausd_staking address this = save (record this.config { ausd_staking = some address }) this

unfoldable pub set_av_controller : String → ConfigFileHelper → Result ConfigFileHelper
set_av_controller address this =
    let controller : AutomateVaultController = record { address = address; creditors = [] } in
    save (record this.config { automated_vault_controller = some controller }) this

abbrev with_creditors : List String → AutomateVaultController → AutomateVaultController
with_creditors creditors controller = record controller { creditors = creditors }

unfoldable pub set_credit_to_av_controller :
    List String → ConfigFileHelper → Result ConfigFileHelper
set_credit_to_av_controller creditors this = do
  controller ←
      require ">> Error Please Deploy AVController first" this.config.automated_vault_controller
  save
      (record this.config {
        automated_vault_controller = some (with_creditors creditors controller);
      })
      this

abbrev add_creditor : Option (List Creditor) → Creditor → List Creditor
add_creditor none creditor = creditor ∷ []
add_creditor (some creditors) creditor = creditors ++ (creditor ∷ [])

unfoldable pub add_or_set_creditors : Creditor → ConfigFileHelper → Result ConfigFileHelper
add_or_set_creditors creditor this =
    save (record this.config { creditors = some (add_creditor this.config.creditors creditor) })
      this

abbrev with_staking : Option Nft → String → Nft
with_staking none address = record {
  nft_staking = some address;
  nft_boosted_leverage_controller = none;
}
with_staking (some nft) address = record nft { nft_staking = some address }

unfoldable pub add_or_set_nft_staking : String → ConfigFileHelper → Result ConfigFileHelper
add_or_set_nft_staking address this =
    save (record this.config { nft = some (with_staking this.config.nft address) }) this

abbrev with_leverage_controller : Option Nft → String → Nft
with_leverage_controller none address = record {
  nft_staking = none;
  nft_boosted_leverage_controller = some address;
}
with_leverage_controller (some nft) address = record nft {
  nft_boosted_leverage_controller = some address;
}

-- `addOrSetNFTBoostedLeverageContoller`
unfoldable pub add_or_set_nft_boosted_leverage_contoller :
    String → ConfigFileHelper → Result ConfigFileHelper
add_or_set_nft_boosted_leverage_contoller address this =
    save (record this.config { nft = some (with_leverage_controller this.config.nft address) }) this

unfoldable pub set_delta_neutral_health_checker :
    String → ConfigFileHelper → Result ConfigFileHelper
set_delta_neutral_health_checker address this =
    save (record this.config { delta_neutral_vault_health_checker = some address }) this

abbrev with_migrator : String → AutomatedVaultExecutor → AutomatedVaultExecutor
with_migrator address executor = record executor { migrator = some address }

unfoldable pub set_av_migration : String → ConfigFileHelper → Result ConfigFileHelper
set_av_migration address this = do
  executor ← require "AutomatedVaultExecutor is undefined" this.config.automated_vault_executor
  save (record this.config { automated_vault_executor = some (with_migrator address executor) })
      this
