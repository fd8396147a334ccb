-- ===== src/Pdas/Sdk.antt =====
-- `SurPdas` of clients/sdk/src/pdas.ts, a function for each program.
use sur_protocol_solana.Base.{not, [], ◌∷◌, utf8, length, ◌==◌, ◌>>=◌, ◌>>◌, throw_if, Outcome}
use sur_protocol_solana.Programs.{
  a2a_darkpool, auto_deleveraging, insurance_fund, liquidator, oracle_router, perp_engine,
  perp_vault, sur_timelock, sur_program_ids,
}
use sur_protocol_solana.Pdas.Defs.{
  Derivation, find_program_address, or_default, bn_le, DarkpoolPda, VaultPda, OraclePda, EnginePda,
  TimelockPda, LiquidatorPda, InsuranceFundPda, AdlPda, darkpool_config, intent, response,
  agent_reputation, vault_config, vault_authority, usdc_vault, account_balance, vault_operator,
  oracle_config, oracle_authority, feed, oracle_operator, engine_config, market, position,
  engine_authority, engine_operator, timelock_config, queued_tx, pausable_target, liquidator_config,
  liquidator_authority, keeper_stats, insurance_fund_config, insurance_fund_authority,
  market_bad_debt, insurance_fund_operator, adl_config, adl_operator,
}

unfoldable pub darkpool_pda : DarkpoolPda → Outcome Derivation
unfolding sur_program_ids find_program_address bn_le or_default
darkpool_pda darkpool_config =
    find_program_address (utf8 "config" ∷ []) (sur_program_ids a2a_darkpool)
darkpool_pda (intent intent_id) = do
  bytes ← bn_le intent_id
  find_program_address (utf8 "intent" ∷ bytes ∷ []) (sur_program_ids a2a_darkpool)
darkpool_pda (response response_id) = do
  bytes ← bn_le response_id
  find_program_address (utf8 "response" ∷ bytes ∷ []) (sur_program_ids a2a_darkpool)
darkpool_pda (agent_reputation agent) =
    find_program_address (utf8 "reputation" ∷ agent ∷ []) (sur_program_ids a2a_darkpool)

unfoldable pub vault_pda : VaultPda → Outcome Derivation
unfolding sur_program_ids find_program_address bn_le or_default
vault_pda vault_config =
    find_program_address (utf8 "vault_config" ∷ []) (sur_program_ids perp_vault)
vault_pda vault_authority =
    find_program_address (utf8 "vault_authority" ∷ []) (sur_program_ids perp_vault)
vault_pda usdc_vault = find_program_address (utf8 "usdc_vault" ∷ []) (sur_program_ids perp_vault)
vault_pda (account_balance trader) =
    find_program_address (utf8 "balance" ∷ trader ∷ []) (sur_program_ids perp_vault)
vault_pda (vault_operator operator) =
    find_program_address (utf8 "operator" ∷ operator ∷ []) (sur_program_ids perp_vault)

unfoldable pub oracle_pda : OraclePda → Outcome Derivation
unfolding sur_program_ids find_program_address bn_le or_default
oracle_pda oracle_config =
    find_program_address (utf8 "oracle_config" ∷ []) (sur_program_ids oracle_router)
oracle_pda oracle_authority =
    find_program_address (utf8 "oracle_authority" ∷ []) (sur_program_ids oracle_router)
oracle_pda (feed market_id) = do
  throw_if (not (length market_id == 32)) "marketId must be 32 bytes"
  find_program_address (utf8 "feed" ∷ market_id ∷ []) (sur_program_ids oracle_router)
oracle_pda (oracle_operator operator) =
    find_program_address (utf8 "operator" ∷ operator ∷ []) (sur_program_ids oracle_router)

unfoldable pub engine_pda : EnginePda → Outcome Derivation
unfolding sur_program_ids find_program_address bn_le or_default
engine_pda engine_config =
    find_program_address (utf8 "engine_config" ∷ []) (sur_program_ids perp_engine)
engine_pda (market market_id) = do
  throw_if (not (length market_id == 32)) "marketId must be 32 bytes"
  find_program_address (utf8 "market" ∷ market_id ∷ []) (sur_program_ids perp_engine)
engine_pda (position market_id trader) = do
  throw_if (not (length market_id == 32)) "marketId must be 32 bytes"
  find_program_address (utf8 "position" ∷ market_id ∷ trader ∷ []) (sur_program_ids perp_engine)
engine_pda engine_authority =
    find_program_address (utf8 "engine_authority" ∷ []) (sur_program_ids perp_engine)
engine_pda (engine_operator operator) =
    find_program_address (utf8 "operator" ∷ operator ∷ []) (sur_program_ids perp_engine)

unfoldable pub timelock_pda : TimelockPda → Outcome Derivation
unfolding sur_program_ids find_program_address bn_le or_default
timelock_pda timelock_config =
    find_program_address (utf8 "timelock_config" ∷ []) (sur_program_ids sur_timelock)
timelock_pda (queued_tx tx_hash) = do
  throw_if (not (length tx_hash == 32)) "txHash must be 32 bytes"
  find_program_address (utf8 "queued_tx" ∷ tx_hash ∷ []) (sur_program_ids sur_timelock)
timelock_pda (pausable_target target) =
    find_program_address (utf8 "pausable_target" ∷ target ∷ []) (sur_program_ids sur_timelock)

unfoldable pub liquidator_pda : LiquidatorPda → Outcome Derivation
unfolding sur_program_ids find_program_address bn_le or_default
liquidator_pda liquidator_config =
    find_program_address (utf8 "liquidator_config" ∷ []) (sur_program_ids liquidator)
liquidator_pda liquidator_authority =
    find_program_address (utf8 "liquidator_authority" ∷ []) (sur_program_ids liquidator)
liquidator_pda (keeper_stats keeper) =
    find_program_address (utf8 "keeper" ∷ keeper ∷ []) (sur_program_ids liquidator)

unfoldable pub insurance_fund_pda : InsuranceFundPda → Outcome Derivation
unfolding sur_program_ids find_program_address bn_le or_default
insurance_fund_pda insurance_fund_config =
    find_program_address (utf8 "insurance_fund_config" ∷ []) (sur_program_ids insurance_fund)
insurance_fund_pda insurance_fund_authority =
    find_program_address (utf8 "insurance_fund_authority" ∷ []) (sur_program_ids insurance_fund)
insurance_fund_pda (market_bad_debt market_id) = do
  throw_if (not (length market_id == 32)) "marketId must be 32 bytes"
  find_program_address (utf8 "market_bad_debt" ∷ market_id ∷ []) (sur_program_ids insurance_fund)
insurance_fund_pda (insurance_fund_operator operator) =
    find_program_address (utf8 "operator" ∷ operator ∷ []) (sur_program_ids insurance_fund)

unfoldable pub adl_pda : AdlPda → Outcome Derivation
unfolding sur_program_ids find_program_address bn_le or_default
adl_pda adl_config =
    find_program_address (utf8 "adl_config" ∷ []) (sur_program_ids auto_deleveraging)
adl_pda (adl_operator operator) =
    find_program_address (utf8 "operator" ∷ operator ∷ []) (sur_program_ids auto_deleveraging)
