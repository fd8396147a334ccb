-- ===== src/Pdas/Defs.antt =====
-- The accounts that clients/sdk/src/pdas.ts and clients/web/lib/pdas.ts derive, a constructor for
-- each helper, and what a helper hands to `PublicKey.findProgramAddressSync` of web3.js.
use sur_protocol_solana.Base.{Bytes, Outcome, returned, Option, none, some, List}
use sur_protocol_solana.Base.Int.{ℤ}
use sur_protocol_solana.Base.Buffer.{write_big_uint64_le}
use sur_protocol_solana.Programs.{ProgramId}

-- `key.toBuffer()`: the 32 bytes of a public key.
abbrev pub PublicKey : Type 0
PublicKey = Bytes

-- The arguments of `PublicKey.findProgramAddressSync(seeds, programId)`.
pub record Derivation : Type 0 where
  pub seeds : List Bytes
  pub program_id : ProgramId

unfoldable pub find_program_address : List Bytes → ProgramId → Outcome Derivation
find_program_address seeds id = returned (record { seeds = seeds; program_id = id })

-- `bnLE`, and the same two lines in `noncePagePda`
unfoldable pub bn_le : ℤ → Outcome Bytes
bn_le = write_big_uint64_le

-- A parameter with a default value.
unfoldable pub or_default : Option ProgramId → ProgramId → ProgramId
or_default none default = default
or_default (some id) default = id

pub data DarkpoolPda : Type 0 where
  darkpool_config : DarkpoolPda
  intent : ℤ → DarkpoolPda
  response : ℤ → DarkpoolPda
  agent_reputation : PublicKey → DarkpoolPda

pub data VaultPda : Type 0 where
  vault_config : VaultPda
  vault_authority : VaultPda
  usdc_vault : VaultPda
  account_balance : PublicKey → VaultPda
  vault_operator : PublicKey → VaultPda

pub data OraclePda : Type 0 where
  oracle_config : OraclePda
  oracle_authority : OraclePda
  feed : Bytes → OraclePda
  oracle_operator : PublicKey → OraclePda

pub data EnginePda : Type 0 where
  engine_config : EnginePda
  market : Bytes → EnginePda
  position : Bytes → PublicKey → EnginePda
  engine_authority : EnginePda
  engine_operator : PublicKey → EnginePda

pub data TimelockPda : Type 0 where
  timelock_config : TimelockPda
  queued_tx : Bytes → TimelockPda
  pausable_target : PublicKey → TimelockPda

pub data LiquidatorPda : Type 0 where
  liquidator_config : LiquidatorPda
  liquidator_authority : LiquidatorPda
  keeper_stats : PublicKey → LiquidatorPda

pub data InsuranceFundPda : Type 0 where
  insurance_fund_config : InsuranceFundPda
  insurance_fund_authority : InsuranceFundPda
  market_bad_debt : Bytes → InsuranceFundPda
  insurance_fund_operator : PublicKey → InsuranceFundPda

pub data AdlPda : Type 0 where
  adl_config : AdlPda
  adl_operator : PublicKey → AdlPda

pub data CollateralManagerPda : Type 0 where
  collateral_manager_config : CollateralManagerPda
  collateral : PublicKey → CollateralManagerPda
  trader_collateral : PublicKey → PublicKey → CollateralManagerPda
  collateral_operator : PublicKey → CollateralManagerPda
  collateral_manager_authority : CollateralManagerPda
  collateral_escrow_authority : PublicKey → CollateralManagerPda
  collateral_escrow : PublicKey → CollateralManagerPda

pub data TradingVaultPda : Type 0 where
  trading_vault_config : TradingVaultPda
  trading_vault_authority : TradingVaultPda
  vault : Bytes → TradingVaultPda
  depositor : Bytes → PublicKey → TradingVaultPda
  trading_vault_operator : PublicKey → TradingVaultPda

pub data OrderSettlementPda : Type 0 where
  order_settlement_config : OrderSettlementPda
  order_settlement_authority : OrderSettlementPda
  order_settlement_operator : PublicKey → OrderSettlementPda
  nonce_page : PublicKey → ℤ → OrderSettlementPda
  order_commit : Bytes → OrderSettlementPda
