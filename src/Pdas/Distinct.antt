-- ===== src/Pdas/Distinct.antt =====
-- The addresses of two accounts, as clients/sdk/src/pdas.ts derives them.
use sur_protocol_solana.Base.{◌≡◌, refl, sym, ap, returned, concat}
use sur_protocol_solana.Pdas.Defs.{Derivation}
use sur_protocol_solana.Pdas.Injective
use sur_protocol_solana.Pdas.Injective.{HasMint, HasTrader}
use sur_protocol_solana.Pdas.Accounts.{
  Account, of_darkpool, of_vault, of_oracle, of_engine, of_timelock, of_liquidator,
  of_insurance_fund, of_adl, of_adl_authority, of_collateral_manager, of_trading_vault,
  of_order_settlement, derive, owner, HasKeys, same_owner,
}

-- Accounts of one program that hash the same bytes are one account.
derive_in_program :
    (a b : Account) (d e : Derivation)
    → HasKeys a
    → HasKeys b
    → derive a ≡ returned d
    → derive b ≡ returned e
    → owner a ≡ owner b
    → concat d.seeds ≡ concat e.seeds
    → a ≡ b
unfolding derive
derive_in_program (of_darkpool a) (of_darkpool b) d e ka kb da eb o s =
    ap of_darkpool (Injective.darkpool_pda-injective a b d e da eb s)
derive_in_program (of_vault a) (of_vault b) d e ka kb da eb o s =
    ap of_vault (Injective.vault_pda-injective a b d e da eb s)
derive_in_program (of_oracle a) (of_oracle b) d e ka kb da eb o s =
    ap of_oracle (Injective.oracle_pda-injective a b d e da eb s)
derive_in_program (of_engine a) (of_engine b) d e ka kb da eb o s =
    ap of_engine (Injective.engine_pda-injective a b d e da eb s)
derive_in_program (of_timelock a) (of_timelock b) d e ka kb da eb o s =
    ap of_timelock (Injective.timelock_pda-injective a b d e da eb s)
derive_in_program (of_liquidator a) (of_liquidator b) d e ka kb da eb o s =
    ap of_liquidator (Injective.liquidator_pda-injective a b d e da eb s)
derive_in_program (of_insurance_fund a) (of_insurance_fund b) d e ka kb da eb o s =
    ap of_insurance_fund (Injective.insurance_fund_pda-injective a b d e da eb s)
derive_in_program (of_adl a) (of_adl b) d e ka kb da eb o s =
    ap of_adl (Injective.adl_pda-injective a b d e da eb s)
derive_in_program of_adl_authority of_adl_authority d e ka kb da eb o s = refl
derive_in_program (of_adl a) of_adl_authority d e ka kb da eb o s =
    absurd (Injective.adl_authority_pda-injective a d e da eb s)
derive_in_program of_adl_authority (of_adl b) d e ka kb da eb o s =
    absurd (Injective.adl_authority_pda-injective b e d eb da (sym s))
derive_in_program (of_collateral_manager a) (of_collateral_manager b) d e ka kb da eb o s =
    ap of_collateral_manager (Injective.collateral_manager_pda-injective a b d e ka kb da eb s)
derive_in_program (of_trading_vault a) (of_trading_vault b) d e ka kb da eb o s =
    ap of_trading_vault (Injective.trading_vault_pda-injective a b d e da eb s)
derive_in_program (of_order_settlement a) (of_order_settlement b) d e ka kb da eb o s =
    ap of_order_settlement (Injective.order_settlement_pda-injective a b d e ka kb da eb s)
derive_in_program a b d e ka kb da eb o s = cc

-- No two accounts that the SDK has a helper for have one address, unless the hash of
-- `findProgramAddressSync` collides: where the helpers of two accounts, called with the default
-- programs, return and hand over the same program and the same bytes, the accounts are one, with
-- the same arguments. An account of which `SurPdas` and the functions below it both have a helper
-- counts once. The mints and traders named in `HasKeys` are 32 bytes long.
pub derive_injective :
    (a b : Account) (d e : Derivation)
    → HasKeys a
    → HasKeys b
    → derive a ≡ returned d
    → derive b ≡ returned e
    → d.program_id ≡ e.program_id
    → concat d.seeds ≡ concat e.seeds
    → a ≡ b
derive_injective a b d e ka kb da eb p s =
    derive_in_program a b d e ka kb da eb (same_owner a b d e da eb p) s
