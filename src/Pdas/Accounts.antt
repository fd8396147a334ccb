-- ===== src/Pdas/Accounts.antt =====
-- Every account that the SDK has a helper for, as it derives it with the default program ids.
use sur_protocol_solana.Base.{◌≡◌, sym, ◌∙◌, Outcome, returned, none, arith}
use sur_protocol_solana.Programs.{
  ProgramName, a2a_darkpool, perp_vault, oracle_router, perp_engine, sur_timelock, liquidator,
  insurance_fund, auto_deleveraging, collateral_manager, trading_vault, order_settlement,
  sur_program_ids,
}
use sur_protocol_solana.Programs.Agree.{sur_program_ids_injective}
use sur_protocol_solana.Pdas.Defs.{
  Derivation, DarkpoolPda, VaultPda, OraclePda, EnginePda, TimelockPda, LiquidatorPda,
  InsuranceFundPda, AdlPda, CollateralManagerPda, TradingVaultPda, OrderSettlementPda,
  darkpool_config, intent, response, agent_reputation, vault_config, vault_authority, usdc_vault,
  account_balance, vault_operator, oracle_config, oracle_authority, feed, oracle_operator,
  engine_config, market, position, engine_authority, engine_operator, timelock_config, queued_tx,
  pausable_target, liquidator_config, liquidator_authority, keeper_stats, insurance_fund_config,
  insurance_fund_authority, market_bad_debt, insurance_fund_operator, adl_config, adl_operator,
  collateral_manager_config, collateral, trader_collateral, collateral_operator,
  collateral_manager_authority, collateral_escrow_authority, collateral_escrow,
  trading_vault_config, trading_vault_authority, vault, depositor, trading_vault_operator,
  order_settlement_config, order_settlement_authority, order_settlement_operator, nonce_page,
  order_commit,
}
use sur_protocol_solana.Pdas.Sdk
use sur_protocol_solana.Pdas.SdkHelpers
use sur_protocol_solana.Pdas.Injective.{HasMint, HasTrader}

pub data Account : Type 0 where
  of_darkpool : DarkpoolPda → Account
  of_vault : VaultPda → Account
  of_oracle : OraclePda → Account
  of_engine : EnginePda → Account
  of_timelock : TimelockPda → Account
  of_liquidator : LiquidatorPda → Account
  of_insurance_fund : InsuranceFundPda → Account
  of_adl : AdlPda → Account
  of_adl_authority : Account
  of_collateral_manager : CollateralManagerPda → Account
  of_trading_vault : TradingVaultPda → Account
  of_order_settlement : OrderSettlementPda → Account

-- The helper that the SDK has for the account, called.
unfoldable pub derive : Account → Outcome Derivation
derive (of_darkpool a) = Sdk.darkpool_pda a
derive (of_vault a) = Sdk.vault_pda a
derive (of_oracle a) = Sdk.oracle_pda a
derive (of_engine a) = Sdk.engine_pda a
derive (of_timelock a) = Sdk.timelock_pda a
derive (of_liquidator a) = Sdk.liquidator_pda a
derive (of_insurance_fund a) = Sdk.insurance_fund_pda a
derive (of_adl a) = Sdk.adl_pda a
derive of_adl_authority = SdkHelpers.adl_authority_pda none
derive (of_collateral_manager a) = SdkHelpers.collateral_manager_pda a none
derive (of_trading_vault a) = SdkHelpers.trading_vault_pda a none
derive (of_order_settlement a) = SdkHelpers.order_settlement_pda a none

-- The program that owns the account.
abbrev pub owner : Account → ProgramName
owner (of_darkpool a) = a2a_darkpool
owner (of_vault a) = perp_vault
owner (of_oracle a) = oracle_router
owner (of_engine a) = perp_engine
owner (of_timelock a) = sur_timelock
owner (of_liquidator a) = liquidator
owner (of_insurance_fund a) = insurance_fund
owner (of_adl a) = auto_deleveraging
owner of_adl_authority = auto_deleveraging
owner (of_collateral_manager a) = collateral_manager
owner (of_trading_vault a) = trading_vault
owner (of_order_settlement a) = order_settlement

abbrev pub HasKeys : Account → Type 0
HasKeys (of_collateral_manager a) = HasMint a
HasKeys (of_order_settlement a) = HasTrader a
HasKeys a = Unit

darkpool_pda_owner :
    (a : DarkpoolPda) (d : Derivation)
    → Sdk.darkpool_pda a ≡ returned d
    → d.program_id ≡ sur_program_ids a2a_darkpool
unfolding Sdk.darkpool_pda sur_program_ids
darkpool_pda_owner darkpool_config d h = ground arith
darkpool_pda_owner (intent x) d h = ground arith
darkpool_pda_owner (response x) d h = ground arith
darkpool_pda_owner (agent_reputation x) d h = ground arith

vault_pda_owner :
    (a : VaultPda) (d : Derivation)
    → Sdk.vault_pda a ≡ returned d
    → d.program_id ≡ sur_program_ids perp_vault
unfolding Sdk.vault_pda sur_program_ids
vault_pda_owner vault_config d h = ground arith
vault_pda_owner vault_authority d h = ground arith
vault_pda_owner usdc_vault d h = ground arith
vault_pda_owner (account_balance x) d h = ground arith
vault_pda_owner (vault_operator x) d h = ground arith

oracle_pda_owner :
    (a : OraclePda) (d : Derivation)
    → Sdk.oracle_pda a ≡ returned d
    → d.program_id ≡ sur_program_ids oracle_router
unfolding Sdk.oracle_pda sur_program_ids
oracle_pda_owner oracle_config d h = ground arith
oracle_pda_owner oracle_authority d h = ground arith
oracle_pda_owner (feed x) d h = ground arith
oracle_pda_owner (oracle_operator x) d h = ground arith

engine_pda_owner :
    (a : EnginePda) (d : Derivation)
    → Sdk.engine_pda a ≡ returned d
    → d.program_id ≡ sur_program_ids perp_engine
unfolding Sdk.engine_pda sur_program_ids
engine_pda_owner engine_config d h = ground arith
engine_pda_owner (market x) d h = ground arith
engine_pda_owner (position x y) d h = ground arith
engine_pda_owner engine_authority d h = ground arith
engine_pda_owner (engine_operator x) d h = ground arith

timelock_pda_owner :
    (a : TimelockPda) (d : Derivation)
    → Sdk.timelock_pda a ≡ returned d
    → d.program_id ≡ sur_program_ids sur_timelock
unfolding Sdk.timelock_pda sur_program_ids
timelock_pda_owner timelock_config d h = ground arith
timelock_pda_owner (queued_tx x) d h = ground arith
timelock_pda_owner (pausable_target x) d h = ground arith

liquidator_pda_owner :
    (a : LiquidatorPda) (d : Derivation)
    → Sdk.liquidator_pda a ≡ returned d
    → d.program_id ≡ sur_program_ids liquidator
unfolding Sdk.liquidator_pda sur_program_ids
liquidator_pda_owner liquidator_config d h = ground arith
liquidator_pda_owner liquidator_authority d h = ground arith
liquidator_pda_owner (keeper_stats x) d h = ground arith

insurance_fund_pda_owner :
    (a : InsuranceFundPda) (d : Derivation)
    → Sdk.insurance_fund_pda a ≡ returned d
    → d.program_id ≡ sur_program_ids insurance_fund
unfolding Sdk.insurance_fund_pda sur_program_ids
insurance_fund_pda_owner insurance_fund_config d h = ground arith
insurance_fund_pda_owner insurance_fund_authority d h = ground arith
insurance_fund_pda_owner (market_bad_debt x) d h = ground arith
insurance_fund_pda_owner (insurance_fund_operator x) d h = ground arith

adl_pda_owner :
    (a : AdlPda) (d : Derivation)
    → Sdk.adl_pda a ≡ returned d
    → d.program_id ≡ sur_program_ids auto_deleveraging
unfolding Sdk.adl_pda sur_program_ids
adl_pda_owner adl_config d h = ground arith
adl_pda_owner (adl_operator x) d h = ground arith

adl_authority_pda_owner :
    (d : Derivation)
    → SdkHelpers.adl_authority_pda none ≡ returned d
    → d.program_id ≡ sur_program_ids auto_deleveraging
unfolding SdkHelpers.adl_authority_pda sur_program_ids
adl_authority_pda_owner d h = ground arith

collateral_manager_pda_owner :
    (a : CollateralManagerPda) (d : Derivation)
    → SdkHelpers.collateral_manager_pda a none ≡ returned d
    → d.program_id ≡ sur_program_ids collateral_manager
unfolding SdkHelpers.collateral_manager_pda sur_program_ids
collateral_manager_pda_owner collateral_manager_config d h = ground arith
collateral_manager_pda_owner (collateral x) d h = ground arith
collateral_manager_pda_owner (trader_collateral x y) d h = ground arith
collateral_manager_pda_owner (collateral_operator x) d h = ground arith
collateral_manager_pda_owner collateral_manager_authority d h = ground arith
collateral_manager_pda_owner (collateral_escrow_authority x) d h = ground arith
collateral_manager_pda_owner (collateral_escrow x) d h = ground arith

trading_vault_pda_owner :
    (a : TradingVaultPda) (d : Derivation)
    → SdkHelpers.trading_vault_pda a none ≡ returned d
    → d.program_id ≡ sur_program_ids trading_vault
unfolding SdkHelpers.trading_vault_pda sur_program_ids
trading_vault_pda_owner trading_vault_config d h = ground arith
trading_vault_pda_owner trading_vault_authority d h = ground arith
trading_vault_pda_owner (vault x) d h = ground arith
trading_vault_pda_owner (depositor x y) d h = ground arith
trading_vault_pda_owner (trading_vault_operator x) d h = ground arith

order_settlement_pda_owner :
    (a : OrderSettlementPda) (d : Derivation)
    → SdkHelpers.order_settlement_pda a none ≡ returned d
    → d.program_id ≡ sur_program_ids order_settlement
unfolding SdkHelpers.order_settlement_pda sur_program_ids
order_settlement_pda_owner order_settlement_config d h = ground arith
order_settlement_pda_owner order_settlement_authority d h = ground arith
order_settlement_pda_owner (order_settlement_operator x) d h = ground arith
order_settlement_pda_owner (nonce_page x y) d h = ground arith
order_settlement_pda_owner (order_commit x) d h = ground arith

-- A derived account carries the id of the program that owns it.
pub derive-owner :
    (a : Account) (d : Derivation)
    → derive a ≡ returned d
    → d.program_id ≡ sur_program_ids (owner a)
unfolding derive
derive-owner (of_darkpool a) d h = darkpool_pda_owner a d h
derive-owner (of_vault a) d h = vault_pda_owner a d h
derive-owner (of_oracle a) d h = oracle_pda_owner a d h
derive-owner (of_engine a) d h = engine_pda_owner a d h
derive-owner (of_timelock a) d h = timelock_pda_owner a d h
derive-owner (of_liquidator a) d h = liquidator_pda_owner a d h
derive-owner (of_insurance_fund a) d h = insurance_fund_pda_owner a d h
derive-owner (of_adl a) d h = adl_pda_owner a d h
derive-owner of_adl_authority d h = adl_authority_pda_owner d h
derive-owner (of_collateral_manager a) d h = collateral_manager_pda_owner a d h
derive-owner (of_trading_vault a) d h = trading_vault_pda_owner a d h
derive-owner (of_order_settlement a) d h = order_settlement_pda_owner a d h

pub same_owner :
    (a b : Account) (d e : Derivation)
    → derive a ≡ returned d
    → derive b ≡ returned e
    → d.program_id ≡ e.program_id
    → owner a ≡ owner b
same_owner a b d e da eb p =
    sur_program_ids_injective (owner a) (owner b)
      (sym (derive-owner a d da) ∙ p ∙ derive-owner b e eb)
