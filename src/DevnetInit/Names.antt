-- ===== src/DevnetInit/Names.antt =====
-- The keys under which scripts/devnet-init.ts records its steps.
use sur_protocol_solana.Base.{◌&&◌, Bool, true, List, [], ◌∷◌, ◌≡◌, ◌≢◌, refl, some, arith}
use sur_protocol_solana.Base.Keys.{string_eq, get_key}
use sur_protocol_solana.DevnetInit.Defs.{base58, pda, Cluster, StepStatus, ok, skipped, failed}
use sur_protocol_solana.DevnetInit.Pdas.{vault_config_pda}
use sur_protocol_solana.DevnetInit.Steps.{
  Step, initialize_steps, initialize_oracle_router, initialize_perp_engine, initialize_sur_timelock,
  initialize_a2a_darkpool, initialize_liquidator, initialize_insurance_fund,
  initialize_auto_deleveraging, initialize_collateral_manager, initialize_trading_vault,
  initialize_order_settlement, initialize_with,
}
use sur_protocol_solana.DevnetInit.Operators.{
  vault_operators, set_vault_operator, engine_operators, set_engine_operator, set_oracle_operator,
}
use sur_protocol_solana.DevnetInit.Mint.{vault_request}
use sur_protocol_solana.DevnetInit.Main.{fail_count, program_steps}
use sur_protocol_solana.DevnetInit.Settled.{not_among, names_of, distinct}
use Prim.Native.String.{String}
use sur_protocol_solana.DevnetInit.Later.{later_names}

-- `perp_vault.initialize` as a step, for the mint that it is sent with.
abbrev pub vault_as_step : String → String → Step
vault_as_step deployer usdc_mint = record {
  name = "perp_vault.initialize";
  account = pda vault_config_pda;
  request = vault_request (base58 deployer) usdc_mint;
}

-- A failed step is counted.
pub failed-fail_count :
    (n : String) (o : List (String × StepStatus)) → get_key n o ≡ some failed → fail_count o ≢ 0
unfolding fail_count
failed-fail_count n [] h = cc
failed-fail_count n ((m, failed) ∷ o) h = λ e. omega arith
failed-fail_count n ((m, ok) ∷ o) h = ground (arith, failed-fail_count n o)
failed-fail_count n ((m, skipped) ∷ o) h = ground (arith, failed-fail_count n o)

-- No step sets one of the keys.
abbrev pub clear_of : List String → List Step → Bool
clear_of ns [] = true
clear_of ns (s ∷ ss) = not_among s.name ns && clear_of ns ss

module _ {Chain : Type 0} (cluster : Cluster Chain) (deployer : String) where
  pub vault-not_among :
      not_among "perp_vault.initialize" (names_of (program_steps cluster deployer)) ≡ true
  unfolding program_steps initialize_steps initialize_oracle_router initialize_perp_engine
      initialize_sur_timelock initialize_a2a_darkpool initialize_liquidator
      initialize_insurance_fund initialize_auto_deleveraging initialize_collateral_manager
      initialize_trading_vault initialize_order_settlement initialize_with vault_operators
      set_vault_operator engine_operators set_engine_operator set_oracle_operator string_eq
  vault-not_among = refl

  pub vault-not_among-later : not_among "perp_vault.initialize" later_names ≡ true
  unfolding string_eq
  vault-not_among-later = refl

  pub program_steps-distinct : distinct (program_steps cluster deployer) ≡ true
  unfolding program_steps initialize_steps initialize_oracle_router initialize_perp_engine
      initialize_sur_timelock initialize_a2a_darkpool initialize_liquidator
      initialize_insurance_fund initialize_auto_deleveraging initialize_collateral_manager
      initialize_trading_vault initialize_order_settlement initialize_with vault_operators
      set_vault_operator engine_operators set_engine_operator set_oracle_operator string_eq
  program_steps-distinct = refl

  pub program_steps-clear_of : clear_of later_names (program_steps cluster deployer) ≡ true
  unfolding program_steps initialize_steps initialize_oracle_router initialize_perp_engine
      initialize_sur_timelock initialize_a2a_darkpool initialize_liquidator
      initialize_insurance_fund initialize_auto_deleveraging initialize_collateral_manager
      initialize_trading_vault initialize_order_settlement initialize_with vault_operators
      set_vault_operator engine_operators set_engine_operator set_oracle_operator string_eq
  program_steps-clear_of = refl

  pub vault-clear_of :
      clear_of later_names (vault_as_step deployer "" ∷ program_steps cluster deployer) ≡ true
  vault-clear_of = ground (arith, vault-not_among-later, program_steps-clear_of)
