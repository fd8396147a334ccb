-- ===== src/DevnetInit/Again.antt =====
-- A run of scripts/devnet-init.ts on a cluster that is set up.
use sur_protocol_solana.Base.{
  ℕ, ◌-◌, ◌≤◌, true, List, [], ◌∷◌, ◌≡◌, refl, ap, ◌∙◌, returned, arith, leb, if◌then◌else◌, All,
}
use sur_protocol_solana.DevnetInit.Defs.{
  Address, base58, pda, transfer, Request, Cluster, skipped, World, running, ◌then◌, save_state,
  set_step,
}
use sur_protocol_solana.DevnetInit.Pdas.{
  vault_config_pda, engine_authority_pda, insurance_fund_authority_pda,
}
use sur_protocol_solana.DevnetInit.Steps.{Step}
use sur_protocol_solana.DevnetInit.Operators.{step_by, run_step, run_steps}
use sur_protocol_solana.DevnetInit.Mint.{
  mint_and_vault, vault_by, usdc_mint_step, vault_step, set_mint, set_mint_of,
}
use sur_protocol_solana.DevnetInit.Pools.{
  fund_by, fund_pda, pda_lamports, pool_by, guarded_pool, bootstrap_engine_pool,
  bootstrap_insurance_pool, engine_pool_balance, insurance_pool_balance, sent_of,
}
use sur_protocol_solana.DevnetInit.Markets.{Market, markets, add_market, add_markets, push_market}
use sur_protocol_solana.DevnetInit.Main.{
  program_steps, programs_phase, pools_phase, markets_phase, last_phase, behind_programs, run_main,
}
use Prim.Native.String.{String}

leb-true : (a b : ℕ) → a ≤ b → leb a b ≡ true
leb-true a b l = ground arith

module _ {Chain : Type 0} (cluster : Cluster Chain) where
  -- The cluster reports an account.
  abbrev pub IsThere : Chain → Address → Type 0
  IsThere c a = cluster.get_account_info c a ≡ returned true

  run_steps-IsThere :
      (ss : List Step) (w : World Chain)
      → All (λ s. IsThere w.chain s.account) ss
      → run_steps cluster ss w ≡ running w
  unfolding run_steps run_step
  run_steps-IsThere [] w h = refl
  run_steps-IsThere (s ∷ ss) w (h, hs) =
      ap (λ i. step_by cluster s w i then run_steps cluster ss) h ∙ run_steps-IsThere ss w hs

  fund_pda-funded :
      (a : Address) (lamports cur : ℕ) (w : World Chain)
      → cluster.get_balance w.chain a ≡ returned cur
      → lamports ≤ cur
      → fund_pda cluster a lamports w ≡ running w
  unfolding fund_pda
  fund_pda-funded a lamports cur w h l =
      ap (fund_by cluster a lamports w) h
      ∙ ap
          (λ b.
            if b
            then running w
            else sent_of cluster w (cluster.send w.chain (transfer a (lamports - cur))))
          (leb-true lamports cur l)

  -- The entries of `state.markets` behind `add_markets`.
  abbrev pub push_all : Address → List Market → World Chain → World Chain
  push_all deployer [] w = w
  push_all deployer (m ∷ ms) w = push_all deployer ms (push_market cluster deployer m w)

  add_markets-IsThere :
      (deployer : Address) (ms : List Market) (w : World Chain)
      → All (λ m. IsThere w.chain (add_market deployer m).account) ms
      → add_markets cluster deployer ms w ≡ running (push_all deployer ms w)
  unfolding add_markets run_step
  add_markets-IsThere deployer [] w h = refl
  add_markets-IsThere deployer (m ∷ ms) w (h, hs) =
      ap
        (λ i. step_by cluster (add_market deployer m) w i then λ w'.
          add_markets cluster deployer ms (push_market cluster deployer m w'))
        h
      ∙ add_markets-IsThere deployer ms (push_market cluster deployer m w) hs

  -- What the first phase records on a cluster that is set up.
  abbrev pub recorded : String → World Chain → World Chain
  recorded mint w = set_step "perp_vault.initialize" skipped (set_mint cluster mint w)

  abbrev pub no_markets : World Chain → World Chain
  no_markets w = record w { state = record w.state { markets = [] } }

  -- What is left of `main` on a cluster that is set up: the state's record of the mint, of the
  -- vault's step and of the markets, then the prices and the test USDC.
  unfoldable pub only_prices : String → String → World Chain → World Chain
  only_prices deployer mint w =
      last_phase cluster deployer (
        save_state (push_all (base58 deployer) markets (no_markets (save_state (recorded mint w)))))

  programs_phase-again :
      (deployer mint : String) (w : World Chain)
      → IsThere w.chain (pda vault_config_pda)
      → cluster.fetch_usdc_mint w.chain (pda vault_config_pda) ≡ returned mint
      → All (λ s. IsThere w.chain s.account) (program_steps cluster deployer)
      → programs_phase cluster deployer w ≡ running (save_state (recorded mint w))
  unfolding programs_phase mint_and_vault usdc_mint_step vault_step save_state
  programs_phase-again deployer mint w hv hm hs =
      ap
        (λ i.
          vault_by cluster (base58 deployer) w i
          then run_steps cluster (program_steps cluster deployer)
          then λ v. running (save_state v))
        hv
      ∙ ap
          (λ m.
            set_mint_of cluster w m
            then (λ w'. running (vault_step cluster (base58 deployer) true w'))
            then run_steps cluster (program_steps cluster deployer)
            then λ v. running (save_state v))
          hm
      ∙ ap (λ r. r then λ v. running (save_state v))
          (run_steps-IsThere (program_steps cluster deployer) (recorded mint w) hs)

  guarded_pool-IsThere :
      (balance : Address) (name : String) (rs : ℕ → List Request) (w : World Chain)
      → IsThere w.chain balance
      → guarded_pool cluster balance name rs w ≡ running w
  guarded_pool-IsThere balance name rs w h = ap (pool_by cluster name rs w) h

  bootstrap_engine_pool-again :
      (deployer : Address) (w : World Chain)
      → IsThere w.chain (engine_pool_balance cluster)
      → bootstrap_engine_pool cluster deployer w ≡ running w
  unfolding bootstrap_engine_pool
  bootstrap_engine_pool-again deployer w h =
      guarded_pool-IsThere (engine_pool_balance cluster) "perp_engine.bootstrap_engine_pool" _ w h

  bootstrap_insurance_pool-again :
      (deployer : Address) (w : World Chain)
      → IsThere w.chain (insurance_pool_balance cluster)
      → bootstrap_insurance_pool cluster deployer w ≡ running w
  unfolding bootstrap_insurance_pool
  bootstrap_insurance_pool-again deployer w h =
      guarded_pool-IsThere (insurance_pool_balance cluster)
        "insurance_fund.bootstrap_insurance_pool" _ w h

  pools_phase-again :
      (deployer : String) (w : World Chain) (engine_lamports fund_lamports : ℕ)
      → cluster.get_balance w.chain (pda engine_authority_pda) ≡ returned engine_lamports
      → pda_lamports ≤ engine_lamports
      → cluster.get_balance w.chain (pda insurance_fund_authority_pda) ≡ returned fund_lamports
      → pda_lamports ≤ fund_lamports
      → IsThere w.chain (engine_pool_balance cluster)
      → IsThere w.chain (insurance_pool_balance cluster)
      → pools_phase cluster deployer w ≡ running w
  unfolding pools_phase
  pools_phase-again deployer w be bf he le hf lf hpe hpf =
      ap
        (λ r.
          r
          then fund_pda cluster (pda insurance_fund_authority_pda) pda_lamports
          then bootstrap_engine_pool cluster (base58 deployer)
          then bootstrap_insurance_pool cluster (base58 deployer))
        (fund_pda-funded (pda engine_authority_pda) pda_lamports be w he le)
      ∙ ap
          (λ r.
            r
            then bootstrap_engine_pool cluster (base58 deployer)
            then bootstrap_insurance_pool cluster (base58 deployer))
          (fund_pda-funded (pda insurance_fund_authority_pda) pda_lamports bf w hf lf)
      ∙ ap (λ r. r then bootstrap_insurance_pool cluster (base58 deployer))
          (bootstrap_engine_pool-again (base58 deployer) w hpe)
      ∙ bootstrap_insurance_pool-again (base58 deployer) w hpf

  markets_phase-again :
      (deployer : String) (w : World Chain)
      → All (λ m. IsThere w.chain (add_market (base58 deployer) m).account) markets
      → markets_phase cluster deployer w
        ≡ running (save_state (push_all (base58 deployer) markets (no_markets w)))
  unfolding markets_phase
  markets_phase-again deployer w h =
      ap (λ r. r then λ v. running (save_state v))
        (add_markets-IsThere (base58 deployer) markets (no_markets w) h)

  -- On a cluster that reports the vault with its mint, every account of `program_steps`, the
  -- pools and the markets, and where the two authorities hold 0.1 SOL each, `main`, from behind
  -- its check of the deployer's balance, sends no transaction before the prices: it comes to the
  -- prices with the cluster as it was, having set the mint, the step "perp_vault.initialize" to
  -- "skipped", and the markets.
  pub run_main-again :
      (deployer mint : String) (w : World Chain) (engine_lamports fund_lamports : ℕ)
      → IsThere w.chain (pda vault_config_pda)
      → cluster.fetch_usdc_mint w.chain (pda vault_config_pda) ≡ returned mint
      → All (λ s. IsThere w.chain s.account) (program_steps cluster deployer)
      → cluster.get_balance w.chain (pda engine_authority_pda) ≡ returned engine_lamports
      → pda_lamports ≤ engine_lamports
      → cluster.get_balance w.chain (pda insurance_fund_authority_pda) ≡ returned fund_lamports
      → pda_lamports ≤ fund_lamports
      → IsThere w.chain (engine_pool_balance cluster)
      → IsThere w.chain (insurance_pool_balance cluster)
      → All (λ m. IsThere w.chain (add_market (base58 deployer) m).account) markets
      → run_main cluster deployer w ≡ running (only_prices deployer mint w)
  unfolding run_main only_prices save_state
  run_main-again deployer mint w be bf hv hm hs he le hf lf hpe hpf hms =
      let w₁ = save_state (recorded mint w) in
      ap (λ r. r then behind_programs cluster deployer)
        (programs_phase-again deployer mint w hv hm hs)
      ∙ ap
          (λ r.
            r then markets_phase cluster deployer then λ v. running (last_phase cluster deployer v))
          (pools_phase-again deployer w₁ be bf he le hf lf hpe hpf)
      ∙ ap (λ r. r then λ v. running (last_phase cluster deployer v))
          (markets_phase-again deployer w₁ hms)
