-- ===== src/WebTx/EngineAccepts.antt =====
-- `useOpenPosition` and `useClosePosition` against the account constraints of perp_engine.
use sur_protocol_solana.Base.{
  ◌≡◌, true, false, replicate, Bytes, [], ◌∷◌, some, length, returned, ◌>>=◌, utf8, arith,
}
use sur_protocol_solana.Base.Keys.{bytes_eq, bytes_eq_refl, string_eq}
use sur_protocol_solana.Programs.{program_ids}
use sur_protocol_solana.Pdas.Defs.{PublicKey, find_program_address}
use sur_protocol_solana.Pdas.Web.{engine_pda, vault_pda}
use sur_protocol_solana.WebTx.Defs.{Web3, pda}
use sur_protocol_solana.WebTx.Hooks.{
  OpenPositionArgs, ClosePositionArgs, open_position, close_position, vault_accounts,
}
use sur_protocol_solana.WebTx.Engine.{
  EngineConfig, Market, Operator, Chain, engine_id, vault_id, seeds_address, require_key,
  check_operator, check_balance, internal_transfer_accounts, vault_transfer, open_position_accounts,
  close_position_accounts,
}
use Prim.Native.String.{String}

pub require_key_refl : (a : PublicKey) (error : String) → require_key a a error ≡ returned tt
unfolding require_key
require_key_refl a error = ground (arith, bytes_eq_refl a)

-- What the initialisation leaves on chain, for one market and one trader who is an operator of the
-- engine too and has a balance account in the vault.
pub record IsReady (w : Web3) (chain : Chain) (id : Bytes) (trader : PublicKey) : Type 0 where
  pub config : EngineConfig
  pub market : Market
  pub operator : Operator
  pub vault_operator : Operator
  pub has_config :
      chain.engine_config_at (seeds_address w (utf8 "engine_config" ∷ []) engine_id) ≡ some config
  pub vault_known : config.perp_vault ≡ vault_id
  pub pool_known :
      config.engine_pool
      ≡ seeds_address w
          (utf8 "balance" ∷ seeds_address w (utf8 "engine_authority" ∷ []) engine_id ∷ [])
          vault_id
  pub pool_set :
      bytes_eq
        (seeds_address w
          (utf8 "balance" ∷ seeds_address w (utf8 "engine_authority" ∷ []) engine_id ∷ [])
          vault_id)
        (replicate 32 0)
      ≡ false
  pub has_market :
      chain.market_at (seeds_address w (utf8 "market" ∷ id ∷ []) engine_id) ≡ some market
  pub market_named : market.market_id ≡ id
  pub market_active : market.active ≡ true
  pub has_operator :
      chain.engine_operator_at (seeds_address w (utf8 "operator" ∷ trader ∷ []) engine_id)
      ≡ some operator
  pub operator_named : operator.operator ≡ trader
  pub operator_authorized : operator.authorized ≡ true
  pub has_vault_config :
      chain.is_vault_config (seeds_address w (utf8 "vault_config" ∷ []) vault_id) ≡ true
  pub has_vault_operator :
      chain.vault_operator_at (
        seeds_address w
          (utf8 "operator" ∷ seeds_address w (utf8 "engine_authority" ∷ []) engine_id ∷ [])
          vault_id)
      ≡ some vault_operator
  pub vault_operator_named :
      vault_operator.operator ≡ seeds_address w (utf8 "engine_authority" ∷ []) engine_id
  pub vault_operator_authorized : vault_operator.authorized ≡ true
  pub has_balance :
      chain.balance_at (seeds_address w (utf8 "balance" ∷ trader ∷ []) vault_id) ≡ some trader
  pub has_pool_balance :
      chain.balance_at (
        seeds_address w
          (utf8 "balance" ∷ seeds_address w (utf8 "engine_authority" ∷ []) engine_id ∷ [])
          vault_id)
      ≡ some (seeds_address w (utf8 "engine_authority" ∷ []) engine_id)

-- Where the vault and the engine are initialised, with the engine's pool and its authority as an
-- operator of the vault, the market is listed and active, and the connected wallet is an operator of
-- the engine and has a balance account in the vault, the instruction that `useOpenPosition` builds for
-- a 32-byte market id passes the account constraints of `open_position`, and those of the margin
-- transfer into the engine's pool.
pub open_position-accounts :
    (w : Web3) (chain : Chain) (args : OpenPositionArgs) (trader : PublicKey)
    → length args.market_id ≡ 32
    → IsReady w chain args.market_id trader
    → (open_position w args trader >>= open_position_accounts w chain trader) ≡ returned tt
unfolding open_position open_position_accounts vault_accounts engine_pda vault_pda pda program_ids
    find_program_address vault_transfer internal_transfer_accounts check_operator check_balance
    string_eq
open_position-accounts w chain args trader n r = simp (
  n, require_key_refl, r.has_config, r.vault_known, r.pool_set, r.pool_known, r.has_market,
  r.market_named, r.market_active, r.has_operator, r.operator_named, r.operator_authorized,
  r.has_vault_config, r.has_vault_operator, r.vault_operator_named, r.vault_operator_authorized,
  r.has_balance, r.has_pool_balance,
)

-- In the same state, with the trader's position open, the instruction that `useClosePosition` builds
-- passes every account constraint of `close_position`, and of the transfer out of the pool to the
-- trader of the position.
pub close_position-accounts :
    (w : Web3) (chain : Chain) (args : ClosePositionArgs) (trader : PublicKey)
    → length args.market_id ≡ 32
    → IsReady w chain args.market_id trader
    → chain.position_at (seeds_address w (utf8 "position" ∷ args.market_id ∷ trader ∷ []) engine_id)
      ≡ some trader
    → (close_position w args trader >>= close_position_accounts w chain trader) ≡ returned tt
unfolding close_position close_position_accounts vault_accounts engine_pda vault_pda pda program_ids
    find_program_address vault_transfer internal_transfer_accounts check_operator check_balance
    string_eq
close_position-accounts w chain args trader n r held = simp (
  n, held, require_key_refl, r.has_config, r.vault_known, r.pool_set, r.pool_known, r.has_market,
  r.market_named, r.has_operator, r.operator_named, r.operator_authorized, r.has_vault_config,
  r.has_vault_operator, r.vault_operator_named, r.vault_operator_authorized, r.has_balance,
  r.has_pool_balance,
)
