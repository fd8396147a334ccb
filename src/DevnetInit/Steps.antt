-- ===== src/DevnetInit/Steps.antt =====
-- The steps of `main` of scripts/devnet-init.ts that initialise a program, in its order.
use sur_protocol_solana.Base.{◌*◌, List, [], ◌∷◌, ◌++◌}
use sur_protocol_solana.Programs.{
  ProgramName, a2a_darkpool, auto_deleveraging, insurance_fund, liquidator, oracle_router,
  perp_engine, perp_vault, sur_timelock, collateral_manager, trading_vault, order_settlement,
  script_program_ids,
}
use sur_protocol_solana.DevnetInit.Defs.{
  Address, base58, pda, system_program_id, Argument, bn, Request, rpc, Cluster,
}
use sur_protocol_solana.DevnetInit.Pdas.{
  vault_config_pda, vault_operator_pda, engine_config_pda, engine_authority_pda,
  engine_operator_pda, oracle_config_pda, insurance_fund_config_pda, insurance_fund_authority_pda,
  liquidator_config_pda, adl_config_pda, adl_authority_pda, cm_config_pda, cm_authority_pda,
  tv_config_pda, tv_authority_pda, a2a_config_pda, os_config_pda, os_authority_pda,
  timelock_config_pda,
}
use Prim.Native.String.{String}

-- A step that is skipped if its account exists: the key under `state.steps`, the account that
-- `isInitialized` looks for, and the request that is sent if there is none.
pub record Step : Type 0 where
  pub name : String
  pub account : Address
  pub request : Request

abbrev program_address : ProgramName → Address
program_address p = base58 (script_program_ids p)

-- `initialize` of one program: accounts and the deployer's and the system program's.
unfoldable pub initialize_with :
    Address → ProgramName → String → Address → List Argument → List (String × Address) → Step
initialize_with deployer p name account args accounts = record {
  name = name;
  account = account;
  request =
      rpc p "initialize" args
        (accounts ++ ("owner", deployer) ∷ ("systemProgram", system_program_id) ∷ []);
}

unfoldable pub initialize_oracle_router : Address → Step
initialize_oracle_router deployer =
    initialize_with deployer oracle_router "oracle_router.initialize" (pda oracle_config_pda)
      (bn 180 ∷ bn 1000 ∷ bn 3 ∷ []) (("oracleConfig", pda oracle_config_pda) ∷ [])

unfoldable pub initialize_perp_engine : Address → Step
initialize_perp_engine deployer =
    initialize_with deployer perp_engine "perp_engine.initialize" (pda engine_config_pda) [] (
      ("engineConfig", pda engine_config_pda)
      ∷ ("authority", pda engine_authority_pda)
      ∷ ("perpVault", program_address perp_vault)
      ∷ ("oracleRouter", program_address oracle_router)
      ∷ [])

unfoldable pub initialize_sur_timelock : Address → Step
initialize_sur_timelock deployer =
    initialize_with deployer sur_timelock "sur_timelock.initialize" (pda timelock_config_pda)
      (bn (24 * 60 * 60) ∷ []) (("config", pda timelock_config_pda) ∷ ("guardian", deployer) ∷ [])

unfoldable pub initialize_a2a_darkpool : Address → Step
initialize_a2a_darkpool deployer =
    initialize_with deployer a2a_darkpool "a2a_darkpool.initialize" (pda a2a_config_pda)
      (bn 3 ∷ bn (10_000 * 1_000_000) ∷ bn 500 ∷ bn 60 ∷ bn 86400 ∷ bn 5 ∷ [])
      (("config", pda a2a_config_pda)
        ∷ ("feeRecipient", deployer)
        ∷ ("perpEngine", program_address perp_engine)
        ∷ ("perpVault", program_address perp_vault)
        ∷ [])

unfoldable pub initialize_liquidator : Address → Step
initialize_liquidator deployer =
    initialize_with deployer liquidator "liquidator.initialize" (pda liquidator_config_pda) [] (
      ("config", pda liquidator_config_pda)
      ∷ ("perpEngine", program_address perp_engine)
      ∷ ("insuranceFund", pda insurance_fund_authority_pda)
      ∷ [])

unfoldable pub initialize_insurance_fund : Address → Step
initialize_insurance_fund deployer =
    initialize_with deployer insurance_fund "insurance_fund.initialize"
      (pda insurance_fund_config_pda) (bn (1_000 * 1_000_000) ∷ bn (10_000 * 1_000_000) ∷ [])
      (("config", pda insurance_fund_config_pda)
        ∷ ("authority", pda insurance_fund_authority_pda)
        ∷ ("vault", program_address perp_vault)
        ∷ [])

unfoldable pub initialize_auto_deleveraging : Address → Step
initialize_auto_deleveraging deployer =
    initialize_with deployer auto_deleveraging "auto_deleveraging.initialize" (pda adl_config_pda)
      (bn (1_000 * 1_000_000) ∷ bn 0 ∷ [])
      (("config", pda adl_config_pda)
        ∷ ("authority", pda adl_authority_pda)
        ∷ ("perpEngine", program_address perp_engine)
        ∷ ("perpVault", program_address perp_vault)
        ∷ ("insuranceFund", pda insurance_fund_authority_pda)
        ∷ [])

module _ {Chain : Type 0} (cluster : Cluster Chain) (deployer : Address) where
  -- The account by which the program `p` lists the operator `op`.
  unfoldable pub vault_operator_account : Address → Address
  vault_operator_account op = pda (vault_operator_pda (cluster.to_buffer op))

  unfoldable pub engine_operator_account : Address → Address
  engine_operator_account op = pda (engine_operator_pda (cluster.to_buffer op))

  unfoldable pub initialize_collateral_manager : Step
  initialize_collateral_manager =
      initialize_with deployer collateral_manager "collateral_manager.initialize"
        (pda cm_config_pda) (bn 9000 ∷ bn 1000 ∷ [])
        (("config", pda cm_config_pda)
          ∷ ("authority", pda cm_authority_pda)
          ∷ ("vaultProgram", program_address perp_vault)
          ∷ ("vaultConfig", pda vault_config_pda)
          ∷ ("vaultOperatorAccount", vault_operator_account (pda cm_authority_pda))
          ∷ [])

  unfoldable pub initialize_trading_vault : Step
  initialize_trading_vault =
      initialize_with deployer trading_vault "trading_vault.initialize" (pda tv_config_pda) [] (
        ("config", pda tv_config_pda)
        ∷ ("authority", pda tv_authority_pda)
        ∷ ("perpVaultProgram", program_address perp_vault)
        ∷ ("perpVaultConfig", pda vault_config_pda)
        ∷ ("vaultOperatorAccount", vault_operator_account (pda tv_authority_pda))
        ∷ ("perpEngineProgram", program_address perp_engine)
        ∷ ("perpEngineConfig", pda engine_config_pda)
        ∷ ("engineOperatorAccount", engine_operator_account (pda tv_authority_pda))
        ∷ [])

  unfoldable pub initialize_order_settlement : Step
  initialize_order_settlement =
      initialize_with deployer order_settlement "order_settlement.initialize" (pda os_config_pda)
        (bn 2 ∷ [])
        (("config", pda os_config_pda)
          ∷ ("authority", pda os_authority_pda)
          ∷ ("perpEngineProgram", program_address perp_engine)
          ∷ ("perpEngineConfig", pda engine_config_pda)
          ∷ ("engineOperatorAccount", engine_operator_account (pda os_authority_pda))
          ∷ ("perpVaultProgram", program_address perp_vault)
          ∷ ("perpVaultConfig", pda vault_config_pda)
          ∷ ("vaultOperatorAccount", vault_operator_account (pda os_authority_pda))
          ∷ ("feeRecipient", deployer)
          ∷ [])

  -- `initialize` of the programs behind the vault, in the script's order.
  unfoldable pub initialize_steps : List Step
  initialize_steps =
      initialize_oracle_router deployer
      ∷ initialize_perp_engine deployer
      ∷ initialize_sur_timelock deployer
      ∷ initialize_a2a_darkpool deployer
      ∷ initialize_liquidator deployer
      ∷ initialize_insurance_fund deployer
      ∷ initialize_auto_deleveraging deployer
      ∷ initialize_collateral_manager
      ∷ initialize_trading_vault
      ∷ initialize_order_settlement
      ∷ []
