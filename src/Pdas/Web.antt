-- ===== src/Pdas/Web.antt =====
-- `SurPdas` of clients/web/lib/pdas.ts, a function for each program.
use sur_protocol_solana.Base.{not, [], ◌∷◌, utf8, length, ◌==◌, ◌>>=◌, ◌>>◌, throw_if, Outcome}
use sur_protocol_solana.Programs.{
  a2a_darkpool, oracle_router, perp_engine, perp_vault, sur_timelock, program_ids,
}
use sur_protocol_solana.Pdas.Defs.{
  Derivation, find_program_address, or_default, bn_le, DarkpoolPda, VaultPda, OraclePda, EnginePda,
  TimelockPda, darkpool_config, intent, response, agent_reputation, vault_config, vault_authority,
  usdc_vault, account_balance, vault_operator, oracle_config, oracle_authority, feed,
  oracle_operator, engine_config, market, position, engine_authority, engine_operator,
  timelock_config, queued_tx, pausable_target,
}

unfoldable pub darkpool_pda : DarkpoolPda → Outcome Derivation
unfolding program_ids find_program_address bn_le or_default
darkpool_pda darkpool_config = find_program_address (utf8 "config" ∷ []) (program_ids a2a_darkpool)
darkpool_pda (intent intent_id) = do
  bytes ← bn_le intent_id
  find_program_address (utf8 "intent" ∷ bytes ∷ []) (program_ids a2a_darkpool)
darkpool_pda (response response_id) = do
  bytes ← bn_le response_id
  find_program_address (utf8 "response" ∷ bytes ∷ []) (program_ids a2a_darkpool)
darkpool_pda (agent_reputation agent) =
    find_program_address (utf8 "reputation" ∷ agent ∷ []) (program_ids a2a_darkpool)

unfoldable pub vault_pda : VaultPda → Outcome Derivation
unfolding program_ids find_program_address bn_le or_default
vault_pda vault_config = find_program_address (utf8 "vault_config" ∷ []) (program_ids perp_vault)
vault_pda vault_authority =
    find_program_address (utf8 "vault_authority" ∷ []) (program_ids perp_vault)
vault_pda usdc_vault = find_program_address (utf8 "usdc_vault" ∷ []) (program_ids perp_vault)
vault_pda (account_balance trader) =
    find_program_address (utf8 "balance" ∷ trader ∷ []) (program_ids perp_vault)
vault_pda (vault_operator operator) =
    find_program_address (utf8 "operator" ∷ operator ∷ []) (program_ids perp_vault)

unfoldable pub oracle_pda : OraclePda → Outcome Derivation
unfolding program_ids find_program_address bn_le or_default
oracle_pda oracle_config =
    find_program_address (utf8 "oracle_config" ∷ []) (program_ids oracle_router)
oracle_pda oracle_authority =
    find_program_address (utf8 "oracle_authority" ∷ []) (program_ids oracle_router)
oracle_pda (feed market_id) = do
  throw_if (not (length market_id == 32)) "marketId must be 32 bytes"
  find_program_address (utf8 "feed" ∷ market_id ∷ []) (program_ids oracle_router)
oracle_pda (oracle_operator operator) =
    find_program_address (utf8 "operator" ∷ operator ∷ []) (program_ids oracle_router)

unfoldable pub engine_pda : EnginePda → Outcome Derivation
unfolding program_ids find_program_address bn_le or_default
engine_pda engine_config =
    find_program_address (utf8 "engine_config" ∷ []) (program_ids perp_engine)
engine_pda (market market_id) = do
  throw_if (not (length market_id == 32)) "marketId must be 32 bytes"
  find_program_address (utf8 "market" ∷ market_id ∷ []) (program_ids perp_engine)
engine_pda (position market_id trader) = do
  throw_if (not (length market_id == 32)) "marketId must be 32 bytes"
  find_program_address (utf8 "position" ∷ market_id ∷ trader ∷ []) (program_ids perp_engine)
engine_pda engine_authority =
    find_program_address (utf8 "engine_authority" ∷ []) (program_ids perp_engine)
engine_pda (engine_operator operator) =
    find_program_address (utf8 "operator" ∷ operator ∷ []) (program_ids perp_engine)

unfoldable pub timelock_pda : TimelockPda → Outcome Derivation
unfolding program_ids find_program_address bn_le or_default
timelock_pda timelock_config =
    find_program_address (utf8 "timelock_config" ∷ []) (program_ids sur_timelock)
timelock_pda (queued_tx tx_hash) = do
  throw_if (not (length tx_hash == 32)) "txHash must be 32 bytes"
  find_program_address (utf8 "queued_tx" ∷ tx_hash ∷ []) (program_ids sur_timelock)
timelock_pda (pausable_target target) =
    find_program_address (utf8 "pausable_target" ∷ target ∷ []) (program_ids sur_timelock)
