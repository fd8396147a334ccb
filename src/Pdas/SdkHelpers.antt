-- ===== src/Pdas/SdkHelpers.antt =====
-- The helpers of clients/sdk/src/pdas.ts that take a program id, a function for each program.
use sur_protocol_solana.Base.{
  not, [], ◌∷◌, utf8, length, ◌==◌, ◌>>=◌, ◌>>◌, throw_if, Outcome, Option,
}
use sur_protocol_solana.Programs.{
  ProgramId, auto_deleveraging, collateral_manager, insurance_fund, liquidator, order_settlement,
  trading_vault, sur_program_ids,
}
use sur_protocol_solana.Pdas.Defs.{
  Derivation, find_program_address, or_default, bn_le, CollateralManagerPda, TradingVaultPda,
  OrderSettlementPda, LiquidatorPda, InsuranceFundPda, AdlPda, collateral_manager_config,
  collateral, trader_collateral, collateral_operator, collateral_manager_authority,
  collateral_escrow_authority, collateral_escrow, trading_vault_config, trading_vault_authority,
  vault, depositor, trading_vault_operator, order_settlement_config, order_settlement_authority,
  order_settlement_operator, nonce_page, order_commit, liquidator_config, liquidator_authority,
  keeper_stats, insurance_fund_config, insurance_fund_authority, market_bad_debt,
  insurance_fund_operator, adl_config, adl_operator,
}

unfoldable pub collateral_manager_pda : CollateralManagerPda → Option ProgramId → Outcome Derivation
unfolding sur_program_ids find_program_address bn_le or_default
collateral_manager_pda collateral_manager_config program_id =
    find_program_address (utf8 "config" ∷ [])
      (or_default program_id (sur_program_ids collateral_manager))
collateral_manager_pda (collateral mint) program_id =
    find_program_address (utf8 "collateral" ∷ mint ∷ [])
      (or_default program_id (sur_program_ids collateral_manager))
collateral_manager_pda (trader_collateral mint trader) program_id =
    find_program_address (utf8 "deposit" ∷ mint ∷ trader ∷ [])
      (or_default program_id (sur_program_ids collateral_manager))
collateral_manager_pda (collateral_operator operator) program_id =
    find_program_address (utf8 "operator" ∷ operator ∷ [])
      (or_default program_id (sur_program_ids collateral_manager))
collateral_manager_pda collateral_manager_authority program_id =
    find_program_address (utf8 "collateral_manager_authority" ∷ [])
      (or_default program_id (sur_program_ids collateral_manager))
collateral_manager_pda (collateral_escrow_authority mint) program_id =
    find_program_address (utf8 "vault" ∷ mint ∷ [])
      (or_default program_id (sur_program_ids collateral_manager))
collateral_manager_pda (collateral_escrow mint) program_id =
    find_program_address (utf8 "escrow" ∷ mint ∷ [])
      (or_default program_id (sur_program_ids collateral_manager))

unfoldable pub trading_vault_pda : TradingVaultPda → Option ProgramId → Outcome Derivation
unfolding sur_program_ids find_program_address bn_le or_default
trading_vault_pda trading_vault_config program_id =
    find_program_address (utf8 "config" ∷ [])
      (or_default program_id (sur_program_ids trading_vault))
trading_vault_pda trading_vault_authority program_id =
    find_program_address (utf8 "trading_vault_authority" ∷ [])
      (or_default program_id (sur_program_ids trading_vault))
trading_vault_pda (vault vault_id) program_id = do
  throw_if (not (length vault_id == 32)) "vaultId must be 32 bytes"
  find_program_address (utf8 "vault" ∷ vault_id ∷ [])
      (or_default program_id (sur_program_ids trading_vault))
trading_vault_pda (depositor vault_id depositor_key) program_id = do
  throw_if (not (length vault_id == 32)) "vaultId must be 32 bytes"
  find_program_address (utf8 "share" ∷ vault_id ∷ depositor_key ∷ [])
      (or_default program_id (sur_program_ids trading_vault))
trading_vault_pda (trading_vault_operator operator) program_id =
    find_program_address (utf8 "operator" ∷ operator ∷ [])
      (or_default program_id (sur_program_ids trading_vault))

unfoldable pub order_settlement_pda : OrderSettlementPda → Option ProgramId → Outcome Derivation
unfolding sur_program_ids find_program_address bn_le or_default
order_settlement_pda order_settlement_config program_id =
    find_program_address (utf8 "config" ∷ [])
      (or_default program_id (sur_program_ids order_settlement))
order_settlement_pda order_settlement_authority program_id =
    find_program_address (utf8 "order_settlement_authority" ∷ [])
      (or_default program_id (sur_program_ids order_settlement))
order_settlement_pda (order_settlement_operator operator) program_id =
    find_program_address (utf8 "operator" ∷ operator ∷ [])
      (or_default program_id (sur_program_ids order_settlement))
order_settlement_pda (nonce_page trader page_index) program_id = do
  idx ← bn_le page_index
  find_program_address (utf8 "nonce_page" ∷ trader ∷ idx ∷ [])
      (or_default program_id (sur_program_ids order_settlement))
order_settlement_pda (order_commit commit_hash) program_id = do
  throw_if (not (length commit_hash == 32)) "commitHash must be 32 bytes"
  find_program_address (utf8 "commit" ∷ commit_hash ∷ [])
      (or_default program_id (sur_program_ids order_settlement))

unfoldable pub liquidator_pda : LiquidatorPda → Option ProgramId → Outcome Derivation
unfolding sur_program_ids find_program_address bn_le or_default
liquidator_pda liquidator_config program_id =
    find_program_address (utf8 "liquidator_config" ∷ [])
      (or_default program_id (sur_program_ids liquidator))
liquidator_pda liquidator_authority program_id =
    find_program_address (utf8 "liquidator_authority" ∷ [])
      (or_default program_id (sur_program_ids liquidator))
liquidator_pda (keeper_stats keeper) program_id =
    find_program_address (utf8 "keeper" ∷ keeper ∷ [])
      (or_default program_id (sur_program_ids liquidator))

unfoldable pub insurance_fund_pda : InsuranceFundPda → Option ProgramId → Outcome Derivation
unfolding sur_program_ids find_program_address bn_le or_default
insurance_fund_pda insurance_fund_config program_id =
    find_program_address (utf8 "insurance_fund_config" ∷ [])
      (or_default program_id (sur_program_ids insurance_fund))
insurance_fund_pda insurance_fund_authority program_id =
    find_program_address (utf8 "insurance_fund_authority" ∷ [])
      (or_default program_id (sur_program_ids insurance_fund))
insurance_fund_pda (market_bad_debt market_id) program_id = do
  throw_if (not (length market_id == 32)) "marketId must be 32 bytes"
  find_program_address (utf8 "market_bad_debt" ∷ market_id ∷ [])
      (or_default program_id (sur_program_ids insurance_fund))
insurance_fund_pda (insurance_fund_operator operator) program_id =
    find_program_address (utf8 "operator" ∷ operator ∷ [])
      (or_default program_id (sur_program_ids insurance_fund))

unfoldable pub adl_pda : AdlPda → Option ProgramId → Outcome Derivation
unfolding sur_program_ids find_program_address bn_le or_default
adl_pda adl_config program_id =
    find_program_address (utf8 "adl_config" ∷ [])
      (or_default program_id (sur_program_ids auto_deleveraging))
adl_pda (adl_operator operator) program_id =
    find_program_address (utf8 "operator" ∷ operator ∷ [])
      (or_default program_id (sur_program_ids auto_deleveraging))

unfoldable pub adl_authority_pda : Option ProgramId → Outcome Derivation
unfolding sur_program_ids find_program_address or_default
adl_authority_pda program_id =
    find_program_address (utf8 "adl_authority" ∷ [])
      (or_default program_id (sur_program_ids auto_deleveraging))
