-- ===== src/DevnetInit/Main.antt =====
-- `main`, put together from its steps, and its exit code. The rewriting of the web client's
-- constant and what is printed are not modelled.
use sur_protocol_solana.Base.{
  ℕ, zero, suc, List, [], ◌∷◌, ◌++◌, Outcome, returned, thrown, Option, if◌then◌else◌, ltb,
}
use sur_protocol_solana.DevnetInit.Defs.{
  base58, pda, Cluster, StepStatus, failed, State, World, Run, running, fatal, ◌then◌, save_state,
  load_state,
}
use sur_protocol_solana.DevnetInit.Pdas.{engine_authority_pda, insurance_fund_authority_pda}
use sur_protocol_solana.DevnetInit.Steps.{Step, initialize_steps}
use sur_protocol_solana.DevnetInit.Operators.{
  run_steps, vault_operators, engine_operators, set_oracle_operator,
}
use sur_protocol_solana.DevnetInit.Mint.{mint_and_vault, mint_test_usdc}
use sur_protocol_solana.DevnetInit.Pools.{
  fund_pda, pda_lamports, bootstrap_engine_pool, bootstrap_insurance_pool,
}
use sur_protocol_solana.DevnetInit.Markets.{markets, add_markets, push_prices}
use Prim.Native.String.{String}

abbrev pub lamports_per_sol : ℕ
lamports_per_sol = 1_000_000_000

-- `Object.values(state.steps).filter((s) => s === "failed").length`
unfoldable pub fail_count : List (String × StepStatus) → ℕ
fail_count [] = 0
fail_count ((n, failed) ∷ o) = suc (fail_count o)
fail_count ((n, _) ∷ o) = fail_count o

unfoldable pub exit_code : {Chain : Type 0} → World Chain → ℕ
exit_code w = elim (fail_count w.state.steps) [ zero ↦ 0 | suc n ↦ 1 ]

-- How the process ends.
pub record Ended (Chain : Type 0) : Type 0 where
  pub world : World Chain
  pub code : ℕ

abbrev pub ended : {Chain : Type 0} → Run Chain → Ended Chain
ended (running w) = record { world = w; code = exit_code w }
ended (fatal w) = record { world = w; code = 1 }

module _ {Chain : Type 0} (cluster : Cluster Chain) (deployer : String) where
  -- The steps between the vault and the pools.
  unfoldable pub program_steps : List Step
  program_steps =
      initialize_steps cluster (base58 deployer)
      ++ vault_operators cluster (base58 deployer)
      ++ engine_operators cluster (base58 deployer)
      ++ set_oracle_operator cluster (base58 deployer) ∷ []

  unfoldable pub programs_phase : World Chain → Run Chain
  programs_phase w =
      mint_and_vault cluster (base58 deployer) w
      then run_steps cluster program_steps
      then (λ v. running (save_state v))

  unfoldable pub pools_phase : World Chain → Run Chain
  pools_phase w =
      fund_pda cluster (pda engine_authority_pda) pda_lamports w
      then fund_pda cluster (pda insurance_fund_authority_pda) pda_lamports
      then bootstrap_engine_pool cluster (base58 deployer)
      then bootstrap_insurance_pool cluster (base58 deployer)

  unfoldable pub markets_phase : World Chain → Run Chain
  markets_phase w =
      add_markets cluster (base58 deployer) markets
        (record w { state = record w.state { markets = [] } })
      then (λ v. running (save_state v))

  -- The prices, the test USDC, and the last `saveState`.
  unfoldable pub last_phase : World Chain → World Chain
  last_phase w =
      save_state
        (mint_test_usdc cluster (base58 deployer) (push_prices cluster (base58 deployer) markets w))

  abbrev pub behind_programs : World Chain → Run Chain
  behind_programs w = pools_phase w then markets_phase then λ v. running (last_phase v)

  unfoldable pub run_main : World Chain → Run Chain
  run_main w = programs_phase w then behind_programs

  abbrev pub main_by : World Chain → Outcome ℕ → Ended Chain
  main_by w (returned lamports) =
      if ltb lamports lamports_per_sol then record { world = w; code = 1 } else ended (run_main w)
  main_by w (thrown e) = record { world = w; code = 1 }

  -- From the cluster and the state file to the end of the process; `bal < 1` ends it at once.
  unfoldable pub main : Chain → Option State → Ended Chain
  main c file =
      main_by (record { chain = c; state = load_state file deployer; state_file = file })
        (cluster.get_balance c (base58 deployer))
