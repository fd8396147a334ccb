-- ===== src/DevnetInit/Stale.antt =====
-- A step that failed in an earlier run, and whose account has come to exist since.
use sur_protocol_solana.Base.{
  ℕ, ◌-◌, ◌≤◌, true, false, List, [], ◌∷◌, ◌≡◌, ap, ◌∙◌, Outcome, returned, thrown, some, arith,
  ltb, if◌then◌else◌, All,
}
use sur_protocol_solana.Base.Keys.{string_eq, get_key, get_key-set_key_other}
use sur_protocol_solana.DevnetInit.Defs.{
  Address, base58, pda, mint_to, Cluster, skipped, failed, World, set_step, save_state,
}
use sur_protocol_solana.DevnetInit.Pdas.{
  vault_config_pda, engine_authority_pda, insurance_fund_authority_pda,
}
use sur_protocol_solana.DevnetInit.Operators.{try_send}
use sur_protocol_solana.DevnetInit.Mint.{mint_test_usdc, top_up, top_up_of, test_usdc}
use sur_protocol_solana.DevnetInit.Pools.{pda_lamports, engine_pool_balance, insurance_pool_balance}
use sur_protocol_solana.DevnetInit.Markets.{Market, markets, add_market, push_prices, price_request}
use sur_protocol_solana.DevnetInit.Main.{exit_code, ended, program_steps, last_phase, run_main}
use sur_protocol_solana.DevnetInit.Settled.{not_among}
use sur_protocol_solana.DevnetInit.Phases.{price_names}
use sur_protocol_solana.DevnetInit.Names.{failed-fail_count}
use sur_protocol_solana.DevnetInit.Again.{IsThere, only_prices, run_main-again}
use Prim.Native.String.{String}

-- The keys that `main` always sets.
abbrev pub always_set : List String
always_set =
    "perp_vault.initialize" ∷ "engine.update_mark_price.BTC-USD"
    ∷ "engine.update_mark_price.SOL-USD" ∷ "engine.update_mark_price.ETH-USD" ∷ "mint_test_usdc"
    ∷ []

module _ {Chain : Type 0} (cluster : Cluster Chain) (deployer : String) where
  abbrev Failed : String → World Chain → Type 0
  Failed n w = get_key n w.state.steps ≡ some failed

  try_send-Failed :
      (n : String) (w : World Chain) (p : Market)
      → string_eq p.price_name n ≡ false
      → Failed n w
      → Failed n (try_send cluster p.price_name (price_request cluster (base58 deployer) p) w)
  unfolding try_send
  try_send-Failed n w p h f = get_key-set_key_other p.price_name n _ w.state.steps h ∙ f

  push_prices-Failed :
      (n : String) (ms : List Market) (w : World Chain)
      → not_among n (price_names ms) ≡ true
      → Failed n w
      → Failed n (push_prices cluster (base58 deployer) ms w)
  unfolding push_prices
  push_prices-Failed n [] w h f = f
  push_prices-Failed n (m ∷ ms) w h f =
      push_prices-Failed n ms _ (ground arith) (try_send-Failed n w m (ground arith) f)

  top_up-Failed :
      (n : String) (a : Address) (amount : ℕ) (w : World Chain)
      → string_eq "mint_test_usdc" n ≡ false
      → Failed n w
      → Failed n (top_up cluster a amount w)
  unfolding top_up try_send
  top_up-Failed n a amount w h f =
      elim (ltb amount test_usdc)
        as (λ b. Failed n (
          if b
          then try_send cluster "mint_test_usdc"
              (mint_to (base58 w.state.usdc_mint) a (test_usdc - amount)) w
          else set_step "mint_test_usdc" skipped w)) [
            | true ↦ get_key-set_key_other "mint_test_usdc" n _ w.state.steps h ∙ f
            | false ↦ get_key-set_key_other "mint_test_usdc" n _ w.state.steps h ∙ f
          ]

  top_up_of-Failed :
      (n : String) (r : Outcome (Address × ℕ)) (w : World Chain)
      → string_eq "mint_test_usdc" n ≡ false
      → Failed n w
      → Failed n (top_up_of cluster w r)
  top_up_of-Failed n (returned (a, amount)) w h f = top_up-Failed n a amount w h f
  top_up_of-Failed n (thrown e) w h f =
      get_key-set_key_other "mint_test_usdc" n _ w.state.steps h ∙ f

  last_phase-Failed :
      (n : String) (w : World Chain)
      → not_among n always_set ≡ true
      → Failed n w
      → Failed n (last_phase cluster deployer w)
  unfolding last_phase save_state mint_test_usdc markets
  last_phase-Failed n w h f =
      top_up_of-Failed n _ _ (ground arith) (push_prices-Failed n markets w (ground arith) f)

  only_prices-Failed :
      (n mint : String) (w : World Chain)
      → not_among n always_set ≡ true
      → Failed n w
      → Failed n (only_prices cluster deployer mint w)
  unfolding only_prices save_state markets
  only_prices-Failed n mint w h f =
      last_phase-Failed n _ h
        (get_key-set_key_other "perp_vault.initialize" n skipped w.state.steps (ground arith) ∙ f)

  exit_code-Failed : (n : String) (w : World Chain) → Failed n w → exit_code w ≡ 1
  unfolding exit_code
  exit_code-Failed n w f = let c = failed-fail_count n w.state.steps f in ground arith

  -- On a cluster that is set up as for `run_main-again`, a step that the state file has as
  -- "failed" keeps the exit code at 1, although the run leaves nothing undone: the script
  -- records "skipped" for no step but the vault's and the test USDC. The step is any but the
  -- five that every run sets anew.
  pub failed_stays :
      (n mint : String) (w : World Chain) (engine_lamports fund_lamports : ℕ)
      → IsThere cluster w.chain (pda vault_config_pda)
      → cluster.fetch_usdc_mint w.chain (pda vault_config_pda) ≡ returned mint
      → All (λ s. IsThere cluster w.chain s.account) (program_steps cluster deployer)
      → cluster.get_balance w.chain (pda engine_authority_pda) ≡ returned engine_lamports
      → pda_lamports ≤ engine_lamports
      → cluster.get_balance w.chain (pda insurance_fund_authority_pda) ≡ returned fund_lamports
      → pda_lamports ≤ fund_lamports
      → IsThere cluster w.chain (engine_pool_balance cluster)
      → IsThere cluster w.chain (insurance_pool_balance cluster)
      → All (λ m. IsThere cluster w.chain (add_market (base58 deployer) m).account) markets
      → not_among n always_set ≡ true
      → get_key n w.state.steps ≡ some failed
      → (ended (run_main cluster deployer w)).code ≡ 1
  failed_stays n mint w be bf hv hm hs he le hf lf hpe hpf hms h f =
      ap (λ r. (ended r).code)
        (run_main-again cluster deployer mint w be bf hv hm hs he le hf lf hpe hpf hms)
      ∙ exit_code-Failed n _ (only_prices-Failed n mint w h f)
