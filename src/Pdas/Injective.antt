-- ===== src/Pdas/Injective.antt =====
-- The bytes from which an address of one program is hashed: the seeds, one behind the other.
use sur_protocol_solana.Base.{
  ◌≡◌, ◌≢◌, [], ◌++◌, returned, length, concat, arith, append_split, none,
}
use mathlib.Core.List.{append-nil}
use sur_protocol_solana.Base.Buffer.{write_big_uint64_le_injective}
use sur_protocol_solana.Pdas.Defs.{
  Derivation, PublicKey, DarkpoolPda, VaultPda, OraclePda, EnginePda, TimelockPda, LiquidatorPda,
  InsuranceFundPda, AdlPda, CollateralManagerPda, TradingVaultPda, OrderSettlementPda, intent,
  response, agent_reputation, account_balance, vault_operator, feed, oracle_operator, market,
  position, engine_operator, queued_tx, pausable_target, keeper_stats, market_bad_debt,
  insurance_fund_operator, adl_config, adl_operator, collateral, trader_collateral,
  collateral_operator, collateral_escrow_authority, collateral_escrow, vault, depositor,
  trading_vault_operator, order_settlement_operator, nonce_page, order_commit,
  collateral_manager_authority,
}
use sur_protocol_solana.Pdas.Sdk.{
  darkpool_pda, vault_pda, oracle_pda, engine_pda, timelock_pda, liquidator_pda, insurance_fund_pda,
  adl_pda,
}
use sur_protocol_solana.Pdas.SdkHelpers.{
  adl_authority_pda, collateral_manager_pda, trading_vault_pda, order_settlement_pda,
}

-- `toBuffer()` gives 32 bytes.
abbrev pub IsKey : PublicKey → Type 0
IsKey k = length k ≡ 32

-- The keys of the three accounts in which a key of another length could meet another account.
abbrev pub HasMint : CollateralManagerPda → Type 0
HasMint (collateral mint) = IsKey mint
HasMint (trader_collateral mint trader) = IsKey mint
HasMint a = Unit

abbrev pub HasTrader : OrderSettlementPda → Type 0
HasTrader (nonce_page trader page_index) = IsKey trader
HasTrader a = Unit

pub darkpool_pda-injective :
    (a b : DarkpoolPda) (d e : Derivation)
    → darkpool_pda a ≡ returned d
    → darkpool_pda b ≡ returned e
    → concat d.seeds ≡ concat e.seeds
    → a ≡ b
unfolding darkpool_pda
darkpool_pda-injective (intent i) (intent j) d e da eb s =
    grind (arith, write_big_uint64_le_injective, append-nil)
darkpool_pda-injective (response i) (response j) d e da eb s =
    grind (arith, write_big_uint64_le_injective, append-nil)
darkpool_pda-injective (agent_reputation i) (agent_reputation j) d e da eb s =
    ground (arith, append-nil i, append-nil j)
darkpool_pda-injective a b d e da eb s = ground arith

pub vault_pda-injective :
    (a b : VaultPda) (d e : Derivation)
    → vault_pda a ≡ returned d
    → vault_pda b ≡ returned e
    → concat d.seeds ≡ concat e.seeds
    → a ≡ b
unfolding vault_pda
vault_pda-injective (account_balance i) (account_balance j) d e da eb s =
    ground (arith, append-nil i, append-nil j)
vault_pda-injective (vault_operator i) (vault_operator j) d e da eb s =
    ground (arith, append-nil i, append-nil j)
vault_pda-injective a b d e da eb s = ground arith

pub oracle_pda-injective :
    (a b : OraclePda) (d e : Derivation)
    → oracle_pda a ≡ returned d
    → oracle_pda b ≡ returned e
    → concat d.seeds ≡ concat e.seeds
    → a ≡ b
unfolding oracle_pda
oracle_pda-injective (feed i) (feed j) d e da eb s = ground (arith, append-nil i, append-nil j)
oracle_pda-injective (oracle_operator i) (oracle_operator j) d e da eb s =
    ground (arith, append-nil i, append-nil j)
oracle_pda-injective a b d e da eb s = ground arith

pub engine_pda-injective :
    (a b : EnginePda) (d e : Derivation)
    → engine_pda a ≡ returned d
    → engine_pda b ≡ returned e
    → concat d.seeds ≡ concat e.seeds
    → a ≡ b
unfolding engine_pda
engine_pda-injective (market i) (market j) d e da eb s = ground (arith, append-nil i, append-nil j)
engine_pda-injective (position i x) (position j y) d e da eb s =
    ground (arith, append_split i j (x ++ []) (y ++ []), append-nil x, append-nil y)
engine_pda-injective (engine_operator i) (engine_operator j) d e da eb s =
    ground (arith, append-nil i, append-nil j)
engine_pda-injective a b d e da eb s = ground arith

pub timelock_pda-injective :
    (a b : TimelockPda) (d e : Derivation)
    → timelock_pda a ≡ returned d
    → timelock_pda b ≡ returned e
    → concat d.seeds ≡ concat e.seeds
    → a ≡ b
unfolding timelock_pda
timelock_pda-injective (queued_tx i) (queued_tx j) d e da eb s =
    ground (arith, append-nil i, append-nil j)
timelock_pda-injective (pausable_target i) (pausable_target j) d e da eb s =
    ground (arith, append-nil i, append-nil j)
timelock_pda-injective a b d e da eb s = ground arith

pub liquidator_pda-injective :
    (a b : LiquidatorPda) (d e : Derivation)
    → liquidator_pda a ≡ returned d
    → liquidator_pda b ≡ returned e
    → concat d.seeds ≡ concat e.seeds
    → a ≡ b
unfolding liquidator_pda
liquidator_pda-injective (keeper_stats i) (keeper_stats j) d e da eb s =
    ground (arith, append-nil i, append-nil j)
liquidator_pda-injective a b d e da eb s = ground arith

pub insurance_fund_pda-injective :
    (a b : InsuranceFundPda) (d e : Derivation)
    → insurance_fund_pda a ≡ returned d
    → insurance_fund_pda b ≡ returned e
    → concat d.seeds ≡ concat e.seeds
    → a ≡ b
unfolding insurance_fund_pda
insurance_fund_pda-injective (market_bad_debt i) (market_bad_debt j) d e da eb s =
    ground (arith, append-nil i, append-nil j)
insurance_fund_pda-injective (insurance_fund_operator i) (insurance_fund_operator j) d e da eb s =
    ground (arith, append-nil i, append-nil j)
insurance_fund_pda-injective a b d e da eb s = ground arith

pub adl_pda-injective :
    (a b : AdlPda) (d e : Derivation)
    → adl_pda a ≡ returned d
    → adl_pda b ≡ returned e
    → concat d.seeds ≡ concat e.seeds
    → a ≡ b
unfolding adl_pda
adl_pda-injective (adl_operator i) (adl_operator j) d e da eb s =
    ground (arith, append-nil i, append-nil j)
adl_pda-injective a b d e da eb s = ground arith

-- The authority of auto_deleveraging is none of the program's other accounts.
pub adl_authority_pda-injective :
    (a : AdlPda) (d e : Derivation)
    → adl_pda a ≡ returned d
    → adl_authority_pda none ≡ returned e
    → concat d.seeds ≢ concat e.seeds
unfolding adl_pda adl_authority_pda
adl_authority_pda-injective adl_config d e da eb s = ground arith
adl_authority_pda-injective (adl_operator i) d e da eb s = ground arith

pub collateral_manager_pda-injective :
    (a b : CollateralManagerPda) (d e : Derivation)
    → HasMint a
    → HasMint b
    → collateral_manager_pda a none ≡ returned d
    → collateral_manager_pda b none ≡ returned e
    → concat d.seeds ≡ concat e.seeds
    → a ≡ b
unfolding collateral_manager_pda
collateral_manager_pda-injective (collateral i) (collateral j) d e ka kb da eb s =
    ground (arith, append-nil i, append-nil j)
collateral_manager_pda-injective (trader_collateral i x) (trader_collateral j y) d e ka kb da eb s =
    ground (arith, append_split i j (x ++ []) (y ++ []), append-nil x, append-nil y)
collateral_manager_pda-injective (collateral_operator i) (collateral_operator j) d e ka kb da eb s =
    ground (arith, append-nil i, append-nil j)
collateral_manager_pda-injective (collateral_escrow_authority i) (collateral_escrow_authority j) d e
      ka kb da eb s =
    ground (arith, append-nil i, append-nil j)
collateral_manager_pda-injective (collateral_escrow i) (collateral_escrow j) d e ka kb da eb s =
    ground (arith, append-nil i, append-nil j)
collateral_manager_pda-injective (collateral i) collateral_manager_authority d e ka kb da eb s =
    ground (arith, append-nil i)
collateral_manager_pda-injective collateral_manager_authority (collateral j) d e ka kb da eb s =
    ground (arith, append-nil j)
collateral_manager_pda-injective a b d e ka kb da eb s = ground arith

pub trading_vault_pda-injective :
    (a b : TradingVaultPda) (d e : Derivation)
    → trading_vault_pda a none ≡ returned d
    → trading_vault_pda b none ≡ returned e
    → concat d.seeds ≡ concat e.seeds
    → a ≡ b
unfolding trading_vault_pda
trading_vault_pda-injective (vault i) (vault j) d e da eb s =
    ground (arith, append-nil i, append-nil j)
trading_vault_pda-injective (depositor i x) (depositor j y) d e da eb s =
    ground (arith, append_split i j (x ++ []) (y ++ []), append-nil x, append-nil y)
trading_vault_pda-injective (trading_vault_operator i) (trading_vault_operator j) d e da eb s =
    ground (arith, append-nil i, append-nil j)
trading_vault_pda-injective a b d e da eb s = ground arith

pub order_settlement_pda-injective :
    (a b : OrderSettlementPda) (d e : Derivation)
    → HasTrader a
    → HasTrader b
    → order_settlement_pda a none ≡ returned d
    → order_settlement_pda b none ≡ returned e
    → concat d.seeds ≡ concat e.seeds
    → a ≡ b
unfolding order_settlement_pda
order_settlement_pda-injective (order_settlement_operator i) (order_settlement_operator j) d e ka kb
      da eb s =
    ground (arith, append-nil i, append-nil j)
order_settlement_pda-injective (nonce_page i x) (nonce_page j y) d e ka kb da eb s =
    grind (arith, append_split, write_big_uint64_le_injective, append-nil)
order_settlement_pda-injective (order_commit i) (order_commit j) d e ka kb da eb s =
    ground (arith, append-nil i, append-nil j)
order_settlement_pda-injective a b d e ka kb da eb s = ground arith
