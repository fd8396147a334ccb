-- ===== src/WebTx/Engine.antt =====
-- The account constraints of `open_position` and `close_position` in programs/perp_engine, of the
-- transfer that they call in programs/perp_vault, and how an instruction's accounts are read.
use sur_protocol_solana.Base.{
  ℕ, Bool, true, false, not, Bytes, [], ◌∷◌, Option, none, some, Outcome, returned, thrown, ◌>>=◌,
  ◌>>◌, throw_if, utf8, get_elem?, List, ltb, length, if◌then◌else◌, replicate,
}
use sur_protocol_solana.Base.Keys.{bytes_eq, get_key}
use sur_protocol_solana.Programs.{ProgramId}
use sur_protocol_solana.Pdas.Defs.{PublicKey}
use sur_protocol_solana.WebTx.Defs.{Web3, AccountMeta, Call}
use Prim.Native.String.{String}

-- `declare_id!` of the two programs
abbrev pub engine_id : ProgramId
engine_id = "BnPETJ3Wa9M2nNLr6Gua3HwKhQyFHfXTXqBwh8KLSFK2"

abbrev pub vault_id : ProgramId
vault_id = "HDS6P815i9ZTCriGVMxvvTAY5bkToTSf8XGfPKjSpCxQ"

-- The address that the seeds of a constraint name.
abbrev pub seeds_address : Web3 → List Bytes → ProgramId → PublicKey
seeds_address w seeds id = w.address (record { seeds = seeds; program_id = id })

-- Two keys must be equal.
unfoldable pub require_key : PublicKey → PublicKey → String → Outcome (Unit {0})
require_key a b error = throw_if (not (bytes_eq a b)) error

abbrev pub or_error {ℓ} : {A : Type ℓ} → Option A → String → Outcome A
or_error none error = thrown error
or_error (some a) error = returned a

-- The account that the client gives under a name.
abbrev pub account : Call → String → Outcome PublicKey
account ix name = or_error (get_key name ix.accounts) "AccountNotProvided"

-- The entry of `ctx.remaining_accounts` at an index.
abbrev pub remaining_at : Call → ℕ → Outcome AccountMeta
remaining_at ix i = or_error (get_elem? ix.remaining i) "InvalidParam"

-- The fields of the accounts that the constraints read; a program's key is its base58 text.
pub record EngineConfig : Type 0 where
  pub perp_vault : ProgramId
  pub engine_pool : PublicKey

pub record Market : Type 0 where
  pub market_id : Bytes
  pub active : Bool

pub record Operator : Type 0 where
  pub operator : PublicKey
  pub authorized : Bool

-- The accounts on chain, by address; a position and a balance are given by their trader.
pub record Chain : Type 0 where
  pub engine_config_at : PublicKey → Option EngineConfig
  pub market_at : PublicKey → Option Market
  pub position_at : PublicKey → Option PublicKey
  pub engine_operator_at : PublicKey → Option Operator
  pub is_vault_config : PublicKey → Bool
  pub vault_operator_at : PublicKey → Option Operator
  pub balance_at : PublicKey → Option PublicKey

-- The constraints on `operator_account` and `operator`, for either program.
unfoldable pub check_operator :
    Web3 → ProgramId → (PublicKey → Option Operator) → PublicKey → PublicKey → Outcome (Unit {0})
check_operator w id operator_at operator_account operator = do
  account_data ← or_error (operator_at operator_account) "AccountNotInitialized"
  require_key operator_account (seeds_address w (utf8 "operator" ∷ operator ∷ []) id)
      "ConstraintSeeds"
  require_key account_data.operator operator "ConstraintRaw"
  throw_if (not account_data.authorized) "NotOperator"

unfoldable pub check_balance : Web3 → Chain → AccountMeta → Outcome (Unit {0})
check_balance w chain balance = do
  trader ← or_error (chain.balance_at balance.pubkey) "AccountNotInitialized"
  require_key balance.pubkey (seeds_address w (utf8 "balance" ∷ trader ∷ []) vault_id)
      "ConstraintSeeds"
  throw_if (not balance.is_writable) "ConstraintMut"

-- `InternalTransfer`: the constraints on the accounts of the transfer, with the signing authority.
unfoldable pub internal_transfer_accounts :
    Web3
    → Chain
    → PublicKey
    → PublicKey
    → AccountMeta
    → AccountMeta
    → PublicKey
    → Outcome (Unit {0})
unfolding check_operator check_balance require_key
internal_transfer_accounts w chain config operator_account from_balance to_balance authority = do
  throw_if (not (chain.is_vault_config config)) "AccountNotInitialized"
  require_key config (seeds_address w (utf8 "vault_config" ∷ []) vault_id) "ConstraintSeeds"
  check_operator w vault_id chain.vault_operator_at operator_account authority
  check_balance w chain from_balance
  check_balance w chain to_balance

-- The account checks of the handlers before the transfer, and the transfer's own. An opening moves
-- margin from the trader to the pool, a winning close the other way: `to_pool` tells which.
unfoldable pub vault_transfer :
    Web3 → Chain → EngineConfig → PublicKey → Call → Bool → Outcome (Unit {0})
unfolding internal_transfer_accounts require_key
vault_transfer w chain cfg trader ix to_pool = do
  throw_if (ltb (length ix.remaining) 6) "InvalidParam"
  authority ← remaining_at ix 0
  vault_program ← remaining_at ix 1
  vault_config ← remaining_at ix 2
  vault_operator ← remaining_at ix 3
  trader_balance ← remaining_at ix 4
  engine_pool_balance ← remaining_at ix 5
  require_key vault_program.pubkey (w.public_key cfg.perp_vault) "InvalidParam"
  throw_if (bytes_eq cfg.engine_pool (replicate 32 0)) "InvalidParam"
  require_key engine_pool_balance.pubkey cfg.engine_pool "InvalidParam"
  require_key trader_balance.pubkey (seeds_address w (utf8 "balance" ∷ trader ∷ []) cfg.perp_vault)
      "InvalidParam"
  require_key authority.pubkey (seeds_address w (utf8 "engine_authority" ∷ []) engine_id)
      "InvalidParam"
  internal_transfer_accounts w chain vault_config.pubkey vault_operator.pubkey
      (if to_pool then trader_balance else engine_pool_balance)
      (if to_pool then engine_pool_balance else trader_balance) authority.pubkey

-- `OpenPosition`, and the accounts of the transfer where margin has to be locked. The position may
-- be new: it is created at the address of its seeds.
unfoldable pub open_position_accounts : Web3 → Chain → PublicKey → Call → Outcome (Unit {0})
unfolding check_operator vault_transfer require_key
open_position_accounts w chain signer ix = do
  engine_config ← account ix "engineConfig"
  market ← account ix "market"
  position ← account ix "position"
  trader ← account ix "trader"
  operator_account ← account ix "operatorAccount"
  operator ← account ix "operator"
  system_program ← account ix "systemProgram"
  cfg ← or_error (chain.engine_config_at engine_config) "AccountNotInitialized"
  require_key engine_config (seeds_address w (utf8 "engine_config" ∷ []) engine_id)
      "ConstraintSeeds"
  market_data ← or_error (chain.market_at market) "AccountNotInitialized"
  require_key market (seeds_address w (utf8 "market" ∷ market_data.market_id ∷ []) engine_id)
      "ConstraintSeeds"
  throw_if (not market_data.active) "MarketNotActive"
  require_key position
      (seeds_address w (utf8 "position" ∷ market_data.market_id ∷ trader ∷ []) engine_id)
      "ConstraintSeeds"
  check_operator w engine_id chain.engine_operator_at operator_account operator
  require_key operator signer "AccountNotSigner"
  require_key system_program w.system_program "InvalidProgramId"
  vault_transfer w chain cfg trader ix true

-- `ClosePosition`, and the accounts of the transfer of a winning close, whose receiver is the
-- trader of the position.
unfoldable pub close_position_accounts : Web3 → Chain → PublicKey → Call → Outcome (Unit {0})
unfolding check_operator vault_transfer require_key
close_position_accounts w chain signer ix = do
  engine_config ← account ix "engineConfig"
  market ← account ix "market"
  position ← account ix "position"
  operator_account ← account ix "operatorAccount"
  operator ← account ix "operator"
  cfg ← or_error (chain.engine_config_at engine_config) "AccountNotInitialized"
  require_key engine_config (seeds_address w (utf8 "engine_config" ∷ []) engine_id)
      "ConstraintSeeds"
  market_data ← or_error (chain.market_at market) "AccountNotInitialized"
  require_key market (seeds_address w (utf8 "market" ∷ market_data.market_id ∷ []) engine_id)
      "ConstraintSeeds"
  trader ← or_error (chain.position_at position) "AccountNotInitialized"
  require_key position
      (seeds_address w (utf8 "position" ∷ market_data.market_id ∷ trader ∷ []) engine_id)
      "ConstraintSeeds"
  check_operator w engine_id chain.engine_operator_at operator_account operator
  require_key operator signer "AccountNotSigner"
  vault_transfer w chain cfg trader ix false
