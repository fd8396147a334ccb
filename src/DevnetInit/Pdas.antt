-- ===== src/DevnetInit/Pdas.antt =====
-- The addresses that scripts/devnet-init.ts derives.
use sur_protocol_solana.Base.{List, [], ◌∷◌, Bytes, utf8}
use sur_protocol_solana.Programs.{
  ProgramId, a2a_darkpool, auto_deleveraging, insurance_fund, liquidator, oracle_router,
  perp_engine, perp_vault, sur_timelock, collateral_manager, trading_vault, order_settlement,
  script_program_ids,
}
use sur_protocol_solana.Pdas.Defs.{PublicKey, Derivation}

-- `pda(seeds, programId)`
unfoldable pub pda : List Bytes → ProgramId → Derivation
pda seeds program_id = record { seeds = seeds; program_id = program_id }

unfoldable pub vault_config_pda : Derivation
vault_config_pda = pda (utf8 "vault_config" ∷ []) (script_program_ids perp_vault)

unfoldable pub vault_authority_pda : Derivation
vault_authority_pda = pda (utf8 "vault_authority" ∷ []) (script_program_ids perp_vault)

unfoldable pub usdc_vault_pda : Derivation
usdc_vault_pda = pda (utf8 "usdc_vault" ∷ []) (script_program_ids perp_vault)

unfoldable pub vault_operator_pda : PublicKey → Derivation
vault_operator_pda op = pda (utf8 "operator" ∷ op ∷ []) (script_program_ids perp_vault)

unfoldable pub account_balance_pda : PublicKey → Derivation
account_balance_pda who = pda (utf8 "balance" ∷ who ∷ []) (script_program_ids perp_vault)

unfoldable pub engine_config_pda : Derivation
engine_config_pda = pda (utf8 "engine_config" ∷ []) (script_program_ids perp_engine)

unfoldable pub engine_authority_pda : Derivation
engine_authority_pda = pda (utf8 "engine_authority" ∷ []) (script_program_ids perp_engine)

unfoldable pub engine_operator_pda : PublicKey → Derivation
engine_operator_pda op = pda (utf8 "operator" ∷ op ∷ []) (script_program_ids perp_engine)

unfoldable pub market_pda : Bytes → Derivation
market_pda market_id = pda (utf8 "market" ∷ market_id ∷ []) (script_program_ids perp_engine)

unfoldable pub oracle_config_pda : Derivation
oracle_config_pda = pda (utf8 "oracle_config" ∷ []) (script_program_ids oracle_router)

unfoldable pub oracle_authority_pda : Derivation
oracle_authority_pda = pda (utf8 "oracle_authority" ∷ []) (script_program_ids oracle_router)

unfoldable pub oracle_operator_pda : PublicKey → Derivation
oracle_operator_pda op = pda (utf8 "operator" ∷ op ∷ []) (script_program_ids oracle_router)

unfoldable pub feed_pda : Bytes → Derivation
feed_pda market_id = pda (utf8 "feed" ∷ market_id ∷ []) (script_program_ids oracle_router)

unfoldable pub insurance_fund_config_pda : Derivation
insurance_fund_config_pda =
    pda (utf8 "insurance_fund_config" ∷ []) (script_program_ids insurance_fund)

unfoldable pub insurance_fund_authority_pda : Derivation
insurance_fund_authority_pda =
    pda (utf8 "insurance_fund_authority" ∷ []) (script_program_ids insurance_fund)

unfoldable pub liquidator_config_pda : Derivation
liquidator_config_pda = pda (utf8 "liquidator_config" ∷ []) (script_program_ids liquidator)

unfoldable pub liquidator_authority_pda : Derivation
liquidator_authority_pda = pda (utf8 "liquidator_authority" ∷ []) (script_program_ids liquidator)

unfoldable pub adl_config_pda : Derivation
adl_config_pda = pda (utf8 "adl_config" ∷ []) (script_program_ids auto_deleveraging)

unfoldable pub adl_authority_pda : Derivation
adl_authority_pda = pda (utf8 "adl_authority" ∷ []) (script_program_ids auto_deleveraging)

unfoldable pub cm_config_pda : Derivation
cm_config_pda = pda (utf8 "config" ∷ []) (script_program_ids collateral_manager)

unfoldable pub cm_authority_pda : Derivation
cm_authority_pda =
    pda (utf8 "collateral_manager_authority" ∷ []) (script_program_ids collateral_manager)

unfoldable pub tv_config_pda : Derivation
tv_config_pda = pda (utf8 "config" ∷ []) (script_program_ids trading_vault)

unfoldable pub tv_authority_pda : Derivation
tv_authority_pda = pda (utf8 "trading_vault_authority" ∷ []) (script_program_ids trading_vault)

unfoldable pub a2a_config_pda : Derivation
a2a_config_pda = pda (utf8 "config" ∷ []) (script_program_ids a2a_darkpool)

unfoldable pub a2a_authority_pda : Derivation
a2a_authority_pda = pda (utf8 "darkpool_authority" ∷ []) (script_program_ids a2a_darkpool)

unfoldable pub os_config_pda : Derivation
os_config_pda = pda (utf8 "config" ∷ []) (script_program_ids order_settlement)

unfoldable pub os_authority_pda : Derivation
os_authority_pda =
    pda (utf8 "order_settlement_authority" ∷ []) (script_program_ids order_settlement)

unfoldable pub timelock_config_pda : Derivation
timelock_config_pda = pda (utf8 "timelock_config" ∷ []) (script_program_ids sur_timelock)
