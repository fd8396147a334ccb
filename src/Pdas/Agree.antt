-- ===== src/Pdas/Agree.antt =====
-- The address helpers of the web client beside the SDK's, and the SDK's two families where they
-- overlap.
use sur_protocol_solana.Base.{◌≡◌, refl, Option, none, some}
use sur_protocol_solana.Programs.{ProgramId}
use sur_protocol_solana.Pdas.Defs.{
  DarkpoolPda, VaultPda, OraclePda, EnginePda, TimelockPda, CollateralManagerPda, TradingVaultPda,
  OrderSettlementPda, LiquidatorPda, InsuranceFundPda, AdlPda, darkpool_config, intent, response,
  agent_reputation, vault_config, vault_authority, usdc_vault, account_balance, vault_operator,
  oracle_config, oracle_authority, feed, oracle_operator, engine_config, market, position,
  engine_authority, engine_operator, timelock_config, queued_tx, pausable_target,
  collateral_manager_config, collateral, trader_collateral, collateral_operator,
  collateral_manager_authority, collateral_escrow_authority, collateral_escrow,
  trading_vault_config, trading_vault_authority, vault, depositor, trading_vault_operator,
  order_settlement_config, order_settlement_authority, order_settlement_operator, nonce_page,
  order_commit, liquidator_config, liquidator_authority, keeper_stats, insurance_fund_config,
  insurance_fund_authority, market_bad_debt, insurance_fund_operator, adl_config, adl_operator,
}
use sur_protocol_solana.Pdas.Sdk
use sur_protocol_solana.Pdas.SdkHelpers
use sur_protocol_solana.Pdas.Web
use sur_protocol_solana.Pdas.WebHelpers

darkpool_pda_web : (a : DarkpoolPda) → Web.darkpool_pda a ≡ Sdk.darkpool_pda a
unfolding Web.darkpool_pda Sdk.darkpool_pda
darkpool_pda_web darkpool_config = refl
darkpool_pda_web (intent x) = refl
darkpool_pda_web (response x) = refl
darkpool_pda_web (agent_reputation x) = refl

vault_pda_web : (a : VaultPda) → Web.vault_pda a ≡ Sdk.vault_pda a
unfolding Web.vault_pda Sdk.vault_pda
vault_pda_web vault_config = refl
vault_pda_web vault_authority = refl
vault_pda_web usdc_vault = refl
vault_pda_web (account_balance x) = refl
vault_pda_web (vault_operator x) = refl

oracle_pda_web : (a : OraclePda) → Web.oracle_pda a ≡ Sdk.oracle_pda a
unfolding Web.oracle_pda Sdk.oracle_pda
oracle_pda_web oracle_config = refl
oracle_pda_web oracle_authority = refl
oracle_pda_web (feed x) = refl
oracle_pda_web (oracle_operator x) = refl

engine_pda_web : (a : EnginePda) → Web.engine_pda a ≡ Sdk.engine_pda a
unfolding Web.engine_pda Sdk.engine_pda
engine_pda_web engine_config = refl
engine_pda_web (market x) = refl
engine_pda_web (position x y) = refl
engine_pda_web engine_authority = refl
engine_pda_web (engine_operator x) = refl

timelock_pda_web : (a : TimelockPda) → Web.timelock_pda a ≡ Sdk.timelock_pda a
unfolding Web.timelock_pda Sdk.timelock_pda
timelock_pda_web timelock_config = refl
timelock_pda_web (queued_tx x) = refl
timelock_pda_web (pausable_target x) = refl

collateral_manager_pda_web :
    (a : CollateralManagerPda) (id : Option ProgramId)
    → WebHelpers.collateral_manager_pda a id ≡ SdkHelpers.collateral_manager_pda a id
unfolding WebHelpers.collateral_manager_pda SdkHelpers.collateral_manager_pda
collateral_manager_pda_web collateral_manager_config none = refl
collateral_manager_pda_web collateral_manager_config (some id) = refl
collateral_manager_pda_web (collateral x) none = refl
collateral_manager_pda_web (collateral x) (some id) = refl
collateral_manager_pda_web (trader_collateral x y) none = refl
collateral_manager_pda_web (trader_collateral x y) (some id) = refl
collateral_manager_pda_web (collateral_operator x) none = refl
collateral_manager_pda_web (collateral_operator x) (some id) = refl
collateral_manager_pda_web collateral_manager_authority none = refl
collateral_manager_pda_web collateral_manager_authority (some id) = refl
collateral_manager_pda_web (collateral_escrow_authority x) none = refl
collateral_manager_pda_web (collateral_escrow_authority x) (some id) = refl
collateral_manager_pda_web (collateral_escrow x) none = refl
collateral_manager_pda_web (collateral_escrow x) (some id) = refl

trading_vault_pda_web :
    (a : TradingVaultPda) (id : Option ProgramId)
    → WebHelpers.trading_vault_pda a id ≡ SdkHelpers.trading_vault_pda a id
unfolding WebHelpers.trading_vault_pda SdkHelpers.trading_vault_pda
trading_vault_pda_web trading_vault_config none = refl
trading_vault_pda_web trading_vault_config (some id) = refl
trading_vault_pda_web trading_vault_authority none = refl
trading_vault_pda_web trading_vault_authority (some id) = refl
trading_vault_pda_web (vault x) none = refl
trading_vault_pda_web (vault x) (some id) = refl
trading_vault_pda_web (depositor x y) none = refl
trading_vault_pda_web (depositor x y) (some id) = refl
trading_vault_pda_web (trading_vault_operator x) none = refl
trading_vault_pda_web (trading_vault_operator x) (some id) = refl

order_settlement_pda_web :
    (a : OrderSettlementPda) (id : Option ProgramId)
    → WebHelpers.order_settlement_pda a id ≡ SdkHelpers.order_settlement_pda a id
unfolding WebHelpers.order_settlement_pda SdkHelpers.order_settlement_pda
order_settlement_pda_web order_settlement_config none = refl
order_settlement_pda_web order_settlement_config (some id) = refl
order_settlement_pda_web order_settlement_authority none = refl
order_settlement_pda_web order_settlement_authority (some id) = refl
order_settlement_pda_web (order_settlement_operator x) none = refl
order_settlement_pda_web (order_settlement_operator x) (some id) = refl
order_settlement_pda_web (nonce_page x y) none = refl
order_settlement_pda_web (nonce_page x y) (some id) = refl
order_settlement_pda_web (order_commit x) none = refl
order_settlement_pda_web (order_commit x) (some id) = refl

liquidator_pda_web :
    (a : LiquidatorPda) (id : Option ProgramId)
    → WebHelpers.liquidator_pda a id ≡ SdkHelpers.liquidator_pda a id
unfolding WebHelpers.liquidator_pda SdkHelpers.liquidator_pda
liquidator_pda_web liquidator_config none = refl
liquidator_pda_web liquidator_config (some id) = refl
liquidator_pda_web liquidator_authority none = refl
liquidator_pda_web liquidator_authority (some id) = refl
liquidator_pda_web (keeper_stats x) none = refl
liquidator_pda_web (keeper_stats x) (some id) = refl

insurance_fund_pda_web :
    (a : InsuranceFundPda) (id : Option ProgramId)
    → WebHelpers.insurance_fund_pda a id ≡ SdkHelpers.insurance_fund_pda a id
unfolding WebHelpers.insurance_fund_pda SdkHelpers.insurance_fund_pda
insurance_fund_pda_web insurance_fund_config none = refl
insurance_fund_pda_web insurance_fund_config (some id) = refl
insurance_fund_pda_web insurance_fund_authority none = refl
insurance_fund_pda_web insurance_fund_authority (some id) = refl
insurance_fund_pda_web (market_bad_debt x) none = refl
insurance_fund_pda_web (market_bad_debt x) (some id) = refl
insurance_fund_pda_web (insurance_fund_operator x) none = refl
insurance_fund_pda_web (insurance_fund_operator x) (some id) = refl

adl_pda_web :
    (a : AdlPda) (id : Option ProgramId) → WebHelpers.adl_pda a id ≡ SdkHelpers.adl_pda a id
unfolding WebHelpers.adl_pda SdkHelpers.adl_pda
adl_pda_web adl_config none = refl
adl_pda_web adl_config (some id) = refl
adl_pda_web (adl_operator x) none = refl
adl_pda_web (adl_operator x) (some id) = refl

adl_authority_pda_web :
    (id : Option ProgramId) → WebHelpers.adl_authority_pda id ≡ SdkHelpers.adl_authority_pda id
unfolding WebHelpers.adl_authority_pda SdkHelpers.adl_authority_pda
adl_authority_pda_web none = refl
adl_authority_pda_web (some id) = refl

liquidator_pda_families :
    (a : LiquidatorPda) → SdkHelpers.liquidator_pda a none ≡ Sdk.liquidator_pda a
unfolding SdkHelpers.liquidator_pda Sdk.liquidator_pda
liquidator_pda_families liquidator_config = refl
liquidator_pda_families liquidator_authority = refl
liquidator_pda_families (keeper_stats x) = refl

insurance_fund_pda_families :
    (a : InsuranceFundPda) → SdkHelpers.insurance_fund_pda a none ≡ Sdk.insurance_fund_pda a
unfolding SdkHelpers.insurance_fund_pda Sdk.insurance_fund_pda
insurance_fund_pda_families insurance_fund_config = refl
insurance_fund_pda_families insurance_fund_authority = refl
insurance_fund_pda_families (market_bad_debt x) = refl
insurance_fund_pda_families (insurance_fund_operator x) = refl

adl_pda_families : (a : AdlPda) → SdkHelpers.adl_pda a none ≡ Sdk.adl_pda a
unfolding SdkHelpers.adl_pda Sdk.adl_pda
adl_pda_families adl_config = refl
adl_pda_families (adl_operator x) = refl

-- Each helper of the web client's pdas.ts does what the SDK's helper of that name does: on all
-- arguments the same seeds and program, or the same error; with a program id given and without.
pub web-eq-sdk :
    ((a : DarkpoolPda) → Web.darkpool_pda a ≡ Sdk.darkpool_pda a)
    × ((a : VaultPda) → Web.vault_pda a ≡ Sdk.vault_pda a)
    × ((a : OraclePda) → Web.oracle_pda a ≡ Sdk.oracle_pda a)
    × ((a : EnginePda) → Web.engine_pda a ≡ Sdk.engine_pda a)
    × ((a : TimelockPda) → Web.timelock_pda a ≡ Sdk.timelock_pda a)
    × ((a : CollateralManagerPda) (id : Option ProgramId)
        → WebHelpers.collateral_manager_pda a id ≡ SdkHelpers.collateral_manager_pda a id)
    × ((a : TradingVaultPda) (id : Option ProgramId)
        → WebHelpers.trading_vault_pda a id ≡ SdkHelpers.trading_vault_pda a id)
    × ((a : OrderSettlementPda) (id : Option ProgramId)
        → WebHelpers.order_settlement_pda a id ≡ SdkHelpers.order_settlement_pda a id)
    × ((a : LiquidatorPda) (id : Option ProgramId)
        → WebHelpers.liquidator_pda a id ≡ SdkHelpers.liquidator_pda a id)
    × ((a : InsuranceFundPda) (id : Option ProgramId)
        → WebHelpers.insurance_fund_pda a id ≡ SdkHelpers.insurance_fund_pda a id)
    × ((a : AdlPda) (id : Option ProgramId) → WebHelpers.adl_pda a id ≡ SdkHelpers.adl_pda a id)
    × ((id : Option ProgramId) → WebHelpers.adl_authority_pda id ≡ SdkHelpers.adl_authority_pda id)
web-eq-sdk = (
  darkpool_pda_web, vault_pda_web, oracle_pda_web, engine_pda_web, timelock_pda_web,
  collateral_manager_pda_web, trading_vault_pda_web, order_settlement_pda_web, liquidator_pda_web,
  insurance_fund_pda_web, adl_pda_web, adl_authority_pda_web,
)

-- With the default program, the SDK's helpers for the liquidator, the insurance fund and
-- auto-deleveraging do what the methods of `SurPdas` do.
pub helpers-eq-sur_pdas :
    ((a : LiquidatorPda) → SdkHelpers.liquidator_pda a none ≡ Sdk.liquidator_pda a)
    × ((a : InsuranceFundPda) → SdkHelpers.insurance_fund_pda a none ≡ Sdk.insurance_fund_pda a)
    × ((a : AdlPda) → SdkHelpers.adl_pda a none ≡ Sdk.adl_pda a)
helpers-eq-sur_pdas = (liquidator_pda_families, insurance_fund_pda_families, adl_pda_families)
