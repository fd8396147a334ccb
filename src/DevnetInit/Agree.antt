-- ===== src/DevnetInit/Agree.antt =====
-- The addresses of scripts/devnet-init.ts beside those of the SDK's helpers.
use sur_protocol_solana.Base.{
  ◌≡◌, refl, returned, none, thrown, Bytes, not, length, ◌==◌, if◌then◌else◌, arith,
}
use sur_protocol_solana.Programs.{script_program_ids, sur_program_ids}
use sur_protocol_solana.Pdas.Defs.{
  PublicKey, find_program_address, or_default, darkpool_config, vault_config, vault_authority,
  usdc_vault, account_balance, vault_operator, oracle_config, oracle_authority, oracle_operator,
  engine_config, market, feed, engine_authority, engine_operator, timelock_config,
  liquidator_config, liquidator_authority, insurance_fund_config, insurance_fund_authority,
  adl_config, collateral_manager_config, collateral_manager_authority, trading_vault_config,
  trading_vault_authority, order_settlement_config, order_settlement_authority,
}
use sur_protocol_solana.Pdas.Sdk
use sur_protocol_solana.Pdas.SdkHelpers
use sur_protocol_solana.DevnetInit.Pdas

-- The initialisation script derives, for every account that the SDK too has a helper for, the
-- address that the helper gives: the fixed addresses, those of an operator of the vault, the
-- engine or the oracle and of an account balance, for every key, and those of a market and of a
-- feed, for every market id of 32 bytes; the SDK's helpers throw at a market id of another length.
pub script_pdas-eq-sdk :
    (Sdk.vault_pda vault_config ≡ returned Pdas.vault_config_pda)
    × (Sdk.vault_pda vault_authority ≡ returned Pdas.vault_authority_pda)
    × (Sdk.vault_pda usdc_vault ≡ returned Pdas.usdc_vault_pda)
    × ((op : PublicKey) → Sdk.vault_pda (vault_operator op) ≡ returned (Pdas.vault_operator_pda op))
    × ((op : PublicKey)
        → Sdk.vault_pda (account_balance op) ≡ returned (Pdas.account_balance_pda op))
    × (Sdk.engine_pda engine_config ≡ returned Pdas.engine_config_pda)
    × (Sdk.engine_pda engine_authority ≡ returned Pdas.engine_authority_pda)
    × ((op : PublicKey)
        → Sdk.engine_pda (engine_operator op) ≡ returned (Pdas.engine_operator_pda op))
    × ((id : Bytes)
        → Sdk.engine_pda (market id) ≡ (
            if not (length id == 32)
            then thrown "marketId must be 32 bytes"
            else returned (Pdas.market_pda id)))
    × (Sdk.oracle_pda oracle_config ≡ returned Pdas.oracle_config_pda)
    × (Sdk.oracle_pda oracle_authority ≡ returned Pdas.oracle_authority_pda)
    × ((op : PublicKey)
        → Sdk.oracle_pda (oracle_operator op) ≡ returned (Pdas.oracle_operator_pda op))
    × ((id : Bytes)
        → Sdk.oracle_pda (feed id) ≡ (
            if not (length id == 32)
            then thrown "marketId must be 32 bytes"
            else returned (Pdas.feed_pda id)))
    × (Sdk.insurance_fund_pda insurance_fund_config ≡ returned Pdas.insurance_fund_config_pda)
    × (Sdk.insurance_fund_pda insurance_fund_authority ≡ returned Pdas.insurance_fund_authority_pda)
    × (Sdk.liquidator_pda liquidator_config ≡ returned Pdas.liquidator_config_pda)
    × (Sdk.liquidator_pda liquidator_authority ≡ returned Pdas.liquidator_authority_pda)
    × (Sdk.adl_pda adl_config ≡ returned Pdas.adl_config_pda)
    × (SdkHelpers.adl_authority_pda none ≡ returned Pdas.adl_authority_pda)
    × (SdkHelpers.collateral_manager_pda collateral_manager_config none
        ≡ returned Pdas.cm_config_pda)
    × (SdkHelpers.collateral_manager_pda collateral_manager_authority none
        ≡ returned Pdas.cm_authority_pda)
    × (SdkHelpers.trading_vault_pda trading_vault_config none ≡ returned Pdas.tv_config_pda)
    × (SdkHelpers.trading_vault_pda trading_vault_authority none ≡ returned Pdas.tv_authority_pda)
    × (Sdk.darkpool_pda darkpool_config ≡ returned Pdas.a2a_config_pda)
    × (SdkHelpers.order_settlement_pda order_settlement_config none ≡ returned Pdas.os_config_pda)
    × (SdkHelpers.order_settlement_pda order_settlement_authority none
        ≡ returned Pdas.os_authority_pda)
    × (Sdk.timelock_pda timelock_config ≡ returned Pdas.timelock_config_pda)
unfolding Pdas.pda Pdas.a2a_config_pda Pdas.account_balance_pda Pdas.adl_authority_pda
    Pdas.adl_config_pda Pdas.cm_authority_pda Pdas.cm_config_pda Pdas.engine_authority_pda
    Pdas.engine_config_pda Pdas.engine_operator_pda Pdas.market_pda Pdas.feed_pda
    Pdas.insurance_fund_authority_pda Pdas.insurance_fund_config_pda Pdas.liquidator_authority_pda
    Pdas.liquidator_config_pda Pdas.oracle_authority_pda Pdas.oracle_config_pda
    Pdas.oracle_operator_pda Pdas.os_authority_pda Pdas.os_config_pda Pdas.timelock_config_pda
    Pdas.tv_authority_pda Pdas.tv_config_pda Pdas.usdc_vault_pda Pdas.vault_authority_pda
    Pdas.vault_config_pda Pdas.vault_operator_pda Sdk.adl_pda Sdk.darkpool_pda Sdk.engine_pda
    Sdk.insurance_fund_pda Sdk.liquidator_pda Sdk.oracle_pda Sdk.timelock_pda Sdk.vault_pda
    SdkHelpers.adl_authority_pda SdkHelpers.collateral_manager_pda SdkHelpers.order_settlement_pda
    SdkHelpers.trading_vault_pda find_program_address or_default script_program_ids sur_program_ids
script_pdas-eq-sdk = (
  refl,
  refl,
  refl,
  λ op. refl,
  λ op. refl,
  refl,
  refl,
  λ op. refl,
  λ id. ground arith,
  refl,
  refl,
  λ op. refl,
  λ id. ground arith,
  refl,
  refl,
  refl,
  refl,
  refl,
  refl,
  refl,
  refl,
  refl,
  refl,
  refl,
  refl,
  refl,
  refl,
)
