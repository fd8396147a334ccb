-- ===== src/DevnetInit/Operators.antt =====
-- How `main` runs a step, and the registration of operators across programs.
use sur_protocol_solana.Base.{
  Bool, true, false, List, [], ◌∷◌, Outcome, returned, thrown, if◌then◌else◌,
}
use sur_protocol_solana.Programs.{perp_vault, perp_engine, oracle_router}
use sur_protocol_solana.DevnetInit.Defs.{
  Address, pda, system_program_id, public_key, flag, Request, rpc, Cluster, StepStatus, ok, failed,
  World, Run, running, fatal, ◌then◌, set_step,
}
use sur_protocol_solana.DevnetInit.Pdas.{
  vault_config_pda, engine_config_pda, engine_authority_pda, oracle_config_pda,
  oracle_authority_pda, oracle_operator_pda, insurance_fund_authority_pda, liquidator_authority_pda,
  adl_authority_pda, cm_authority_pda, tv_authority_pda, a2a_authority_pda, os_authority_pda,
}
use sur_protocol_solana.DevnetInit.Steps.{Step, vault_operator_account, engine_operator_account}
use Prim.Native.String.{String}

-- The status that the `try` and its `catch` record.
abbrev pub status_of : Outcome (Unit {0}) → StepStatus
status_of (returned u) = ok
status_of (thrown e) = failed

module _ {Chain : Type 0} (cluster : Cluster Chain) where
  -- `try { await ....rpc(CONFIRM_OPTS); steps[name] = "ok" } catch { steps[name] = "failed" }`
  unfoldable pub try_send : String → Request → World Chain → World Chain
  try_send name request w =
      let sent = cluster.send w.chain request in
      set_step name (status_of sent.1) (record w { chain = sent.0 })

  abbrev pub step_by : Step → World Chain → Outcome Bool → Run Chain
  step_by s w (returned true) = running w
  step_by s w (returned false) = running (try_send s.name s.request w)
  step_by s w (thrown e) = fatal w

  -- `if (!(await isInitialized(connection, account))) { try ... } else ok(...)`: the test is
  -- outside the `try`, and the other branch records nothing.
  unfoldable pub run_step : Step → World Chain → Run Chain
  run_step s w = step_by s w (cluster.get_account_info w.chain s.account)

  unfoldable pub run_steps : List Step → World Chain → Run Chain
  run_steps [] w = running w
  run_steps (s ∷ ss) w = run_step s w then run_steps ss

  module _ (deployer : Address) where
    unfoldable pub set_vault_operator : String → Address → Step
    set_vault_operator name op = record {
      name = name;
      account = vault_operator_account cluster deployer op;
      request = rpc perp_vault "setOperator" (public_key op ∷ flag true ∷ []) (
          ("vaultConfig", pda vault_config_pda)
          ∷ ("operatorAccount", vault_operator_account cluster deployer op)
          ∷ ("owner", deployer)
          ∷ ("systemProgram", system_program_id)
          ∷ []);
    }

    unfoldable pub vault_operators : List Step
    vault_operators =
        set_vault_operator "vault.set_operator.engine_authority" (pda engine_authority_pda)
        ∷ set_vault_operator "vault.set_operator.insurance_fund_authority"
            (pda insurance_fund_authority_pda)
        ∷ set_vault_operator "vault.set_operator.collateral_manager_authority"
            (pda cm_authority_pda)
        ∷ set_vault_operator "vault.set_operator.trading_vault_authority" (pda tv_authority_pda)
        ∷ set_vault_operator "vault.set_operator.order_settlement_authority" (pda os_authority_pda)
        ∷ set_vault_operator "vault.set_operator.a2a_darkpool_authority" (pda a2a_authority_pda)
        ∷ []

    unfoldable pub set_engine_operator : String → Address → Step
    set_engine_operator name op = record {
      name = name;
      account = engine_operator_account cluster deployer op;
      request = rpc perp_engine "setOperator" (public_key op ∷ flag true ∷ []) (
          ("engineConfig", pda engine_config_pda)
          ∷ ("operatorAccount", engine_operator_account cluster deployer op)
          ∷ ("owner", deployer)
          ∷ ("systemProgram", system_program_id)
          ∷ []);
    }

    unfoldable pub engine_operators : List Step
    engine_operators =
        set_engine_operator "engine.set_operator.liquidator_authority"
          (pda liquidator_authority_pda)
        ∷ set_engine_operator "engine.set_operator.adl_authority" (pda adl_authority_pda)
        ∷ set_engine_operator "engine.set_operator.order_settlement_authority"
            (pda os_authority_pda)
        ∷ set_engine_operator "engine.set_operator.trading_vault_authority" (pda tv_authority_pda)
        ∷ set_engine_operator "engine.set_operator.a2a_darkpool_authority" (pda a2a_authority_pda)
        ∷ set_engine_operator "engine.set_operator.oracle_authority" (pda oracle_authority_pda)
        ∷ set_engine_operator "engine.set_operator.deployer (v1 direct)" deployer
        ∷ []

    unfoldable pub set_oracle_operator : Step
    set_oracle_operator =
        let account = pda (oracle_operator_pda (cluster.to_buffer deployer)) in
        record {
          name = "oracle_router.set_operator.deployer";
          account = account;
          request = rpc oracle_router "setOperator" (public_key deployer ∷ flag true ∷ []) (
              ("oracleConfig", pda oracle_config_pda)
              ∷ ("operatorAccount", account)
              ∷ ("owner", deployer)
              ∷ ("systemProgram", system_program_id)
              ∷ []);
        }
