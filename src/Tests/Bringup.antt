-- ===== src/Tests/Bringup.antt =====
-- Clusters: one where the first transaction sets up every account, and one where all is set up.
use sur_protocol_solana.Base.{
  ◌≡◌, refl, Bool, true, false, List, [], ◌∷◌, returned, none, some, All, arith,
}
use sur_protocol_solana.DevnetInit.Defs.{
  Address, base58, Cluster, Request, State, World, running, failed, save_state, load_state,
}
use sur_protocol_solana.Base.Keys.{string_eq}
use sur_protocol_solana.DevnetInit.Steps.{
  Step, initialize_steps, initialize_oracle_router, initialize_perp_engine, initialize_sur_timelock,
  initialize_a2a_darkpool, initialize_liquidator, initialize_insurance_fund,
  initialize_auto_deleveraging, initialize_collateral_manager, initialize_trading_vault,
  initialize_order_settlement, initialize_with,
}
use sur_protocol_solana.DevnetInit.Operators.{
  run_steps, run_step, try_send, vault_operators, set_vault_operator, engine_operators,
  set_engine_operator, set_oracle_operator,
}
use sur_protocol_solana.DevnetInit.Mint.{
  mint_and_vault, usdc_mint_step, vault_step, vault_request, mint_test_usdc, top_up,
}
use sur_protocol_solana.DevnetInit.Pools.{fund_pda, bootstrap_engine_pool, bootstrap_insurance_pool}
use sur_protocol_solana.DevnetInit.Markets.{Market, markets, add_market, add_markets, push_prices}
use sur_protocol_solana.DevnetInit.Main.{
  main, run_main, program_steps, ended, programs_phase, pools_phase, markets_phase, last_phase,
  exit_code, fail_count,
}
use sur_protocol_solana.DevnetInit.Settled.{Creates}
use sur_protocol_solana.DevnetInit.Names.{vault_as_step}
use sur_protocol_solana.DevnetInit.Complete.{main-exit_code}
use sur_protocol_solana.DevnetInit.Again.{IsThere, run_main-again, only_prices}
use sur_protocol_solana.DevnetInit.Stale.{failed_stays}

-- The state is whether a transaction has been sent.
abbrev cluster : Cluster Bool
cluster = record {
  get_account_info = λ c a. returned c;
  get_balance = λ c a. returned 5_000_000_000;
  fetch_usdc_mint = λ c a. returned "mint";
  send = λ c r. (true, returned tt);
  create_mint = λ c. (c, returned "mint");
  get_or_create_associated_token_account = λ c m o. (true, returned (base58 "account", 0));
  get_minimum_balance_for_rent = λ c. returned 2_039_280;
  authority_usdc = λ a. base58 "usdc";
  to_buffer = λ a. [];
}

abbrev Exists : Bool → Address → Type 0
Exists c a = c ≡ true

reported : (c : Bool) (a : Address) → cluster.get_account_info c a ≡ returned true → Exists c a
reported c a h = cc

kept : (c : Bool) (r : Request) (a : Address) → Exists c a → Exists (cluster.send c r).0 a
kept c r a h = refl

main_code : (main cluster "deployer" false none).code ≡ 0
unfolding main run_main programs_phase mint_and_vault usdc_mint_step vault_step vault_request
    program_steps initialize_steps initialize_oracle_router initialize_perp_engine
    initialize_sur_timelock initialize_a2a_darkpool initialize_liquidator initialize_insurance_fund
    initialize_auto_deleveraging initialize_collateral_manager initialize_trading_vault
    initialize_order_settlement initialize_with vault_operators set_vault_operator engine_operators
    set_engine_operator set_oracle_operator run_steps run_step try_send save_state load_state
    pools_phase fund_pda bootstrap_engine_pool bootstrap_insurance_pool markets_phase add_markets
    markets add_market last_phase push_prices mint_test_usdc top_up exit_code fail_count string_eq
main_code = refl

All-Creates : (ss : List Step) → All (Creates cluster Exists reported kept) ss
All-Creates [] = tt
All-Creates (s ∷ ss) = (λ c h. refl, All-Creates ss)

main-exit_code_example :
    All
      (λ s. Exists (main cluster "deployer" false none).world.chain s.account)
      (vault_as_step "deployer" "" ∷ program_steps cluster "deployer")
main-exit_code_example =
    main-exit_code cluster Exists reported kept (λ c mint owner a h. refl) "deployer"
      (λ mint c h. refl) (All-Creates (program_steps cluster "deployer")) false none main_code

-- A state file that an earlier run left behind.
abbrev left : State
left = record {
  usdc_mint = "mint";
  markets = [];
  deployer = "deployer";
  steps = ("perp_engine.initialize", failed) ∷ [];
}

abbrev set_up : World Bool
set_up = record { chain = true; state = left; state_file = some left }

All-IsThere : (ss : List Step) → All (λ s. IsThere cluster true s.account) ss
All-IsThere [] = tt
All-IsThere (s ∷ ss) = (refl, All-IsThere ss)

markets-IsThere :
    (ms : List Market)
    → All (λ m. IsThere cluster true (add_market (base58 "deployer") m).account) ms
markets-IsThere [] = tt
markets-IsThere (m ∷ ms) = (refl, markets-IsThere ms)

run_main-again_example :
    run_main cluster "deployer" set_up ≡ running (only_prices cluster "deployer" "mint" set_up)
run_main-again_example =
    run_main-again cluster "deployer" "mint" set_up 5_000_000_000 5_000_000_000 refl refl
      (All-IsThere (program_steps cluster "deployer")) refl (omega arith) refl (omega arith) refl
      refl (markets-IsThere markets)

failed_stays_example : (ended (run_main cluster "deployer" set_up)).code ≡ 1
unfolding string_eq
failed_stays_example =
    failed_stays cluster "deployer" "perp_engine.initialize" "mint" set_up 5_000_000_000
      5_000_000_000 refl refl (All-IsThere (program_steps cluster "deployer")) refl (omega arith)
      refl (omega arith) refl refl (markets-IsThere markets) refl refl
