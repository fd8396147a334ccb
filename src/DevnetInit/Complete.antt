-- ===== src/DevnetInit/Complete.antt =====
-- What a run of scripts/devnet-init.ts with exit code 0 leaves behind.
use sur_protocol_solana.Base.{
  ℕ, Bool, true, false, List, [], ◌∷◌, ◌≡◌, refl, ap, subst, ◌⊎◌, inl, inr, Outcome, returned,
  thrown, Option, some, arith, ltb, if◌then◌else◌, All,
}
use sur_protocol_solana.Base.Keys.{get_key}
use sur_protocol_solana.DevnetInit.Defs.{
  Address, base58, pda, Request, Cluster, failed, World, Run, running, fatal, ◌then◌,
  then-eq-running, running-inj, State, save_state, load_state,
}
use sur_protocol_solana.DevnetInit.Pdas.{vault_config_pda}
use sur_protocol_solana.DevnetInit.Steps.{Step}
use sur_protocol_solana.DevnetInit.Operators.{run_steps}
use sur_protocol_solana.DevnetInit.Mint.{
  mint_and_vault, vault_by, vault_step, usdc_mint_step, set_mint_of,
}
use sur_protocol_solana.DevnetInit.Main.{
  exit_code, ended, program_steps, programs_phase, markets_phase, last_phase, behind_programs,
  run_main, main, main_by, lamports_per_sol,
}
use sur_protocol_solana.DevnetInit.Settled.{
  not_among, Creates, try_send-own-Settled, run_steps-Settled, run_steps-keeps-Settled,
}
use Prim.Native.String.{String}
use sur_protocol_solana.DevnetInit.Later.{
  later_names, pools_phase-Settled, markets_phase-Settled, last_phase-Settled,
}
use sur_protocol_solana.DevnetInit.Names.{
  vault_as_step, failed-fail_count, clear_of, vault-not_among, vault-clear_of,
  program_steps-distinct,
}

module _ {Chain : Type 0} (cluster : Cluster Chain) (Exists : Chain → Address → Type 0)
    (get_account_info-Exists : (c : Chain) (a : Address)
      → cluster.get_account_info c a ≡ returned true
      → Exists c a)
    (send-Exists : (c : Chain) (r : Request) (a : Address)
      → Exists c a
      → Exists (cluster.send c r).0 a)
    (token_account-Exists : (c : Chain) (mint owner a : Address)
      → Exists c a
      → Exists (cluster.get_or_create_associated_token_account c mint owner).0 a)
    (deployer : String)
    (vault-Creates : (mint : String)
      → Creates cluster Exists get_account_info-Exists send-Exists (vault_as_step deployer mint))
    (steps-Creates : All
      (Creates cluster Exists get_account_info-Exists send-Exists)
      (program_steps cluster deployer)) where
  abbrev IsSettled : World Chain → Step → Type 0
  IsSettled w s = Exists w.chain s.account ⊎ (get_key s.name w.state.steps ≡ some failed)

  -- The mint that the vault's step is sent with does not matter once it is sent.
  abbrev pub vault : Step
  vault = vault_as_step deployer ""

  set_mint_of-chain :
      (w v : World Chain) (r : Outcome String)
      → set_mint_of cluster w r ≡ running v
      → w.chain ≡ v.chain
  unfolding save_state
  set_mint_of-chain w v (returned mint) h = ap (λ u. u.chain) (running-inj _ v h)
  set_mint_of-chain w v (thrown e) h = cc

  vault_by-Settled :
      (w w' : World Chain) (i : Outcome Bool)
      → (i ≡ returned true → Exists w.chain (pda vault_config_pda))
      → vault_by cluster (base58 deployer) w i ≡ running w'
      → IsSettled w' vault
  unfolding vault_step usdc_mint_step
  vault_by-Settled w w' (returned true) k h =
      let (v, f, g) =
        then-eq-running _ (λ v. running (vault_step cluster (base58 deployer) true v)) h in
      rw (← running-inj _ w' g)
        (inl (subst (λ c. Exists c (pda vault_config_pda)) (set_mint_of-chain w v _ f) (k refl)))
  vault_by-Settled w w' (returned false) k h =
      let (v, f, g) =
        then-eq-running _ (λ v. running (vault_step cluster (base58 deployer) false v)) h in
      rw (← running-inj _ w' g) (
        try_send-own-Settled cluster Exists get_account_info-Exists send-Exists
          (vault_as_step deployer v.state.usdc_mint) v (vault-Creates v.state.usdc_mint))
  vault_by-Settled w w' (thrown e) k h = cc

  programs_phase-Settled :
      (w w' : World Chain)
      → programs_phase cluster deployer w ≡ running w'
      → IsSettled w' vault × All (IsSettled w') (program_steps cluster deployer)
  unfolding programs_phase save_state mint_and_vault program_steps
  programs_phase-Settled w w' h =
      let (w₂, h₂, g₂) = then-eq-running _ (λ v. running (save_state v)) h in
      let (w₁, h₁, g₁) =
        then-eq-running _ (run_steps cluster (program_steps cluster deployer)) h₂ in
      rw (← running-inj _ w' g₂) (
        run_steps-keeps-Settled cluster Exists get_account_info-Exists send-Exists
            (program_steps cluster deployer) vault w₁ w₂ (vault-not_among cluster deployer) g₁
            (vault_by-Settled w w₁ _ (get_account_info-Exists w.chain _) h₁),
        run_steps-Settled cluster Exists get_account_info-Exists send-Exists
            (program_steps cluster deployer) w₁ w₂ (program_steps-distinct cluster deployer)
            steps-Creates g₁,
      )

  later-Settled :
      (w w' : World Chain) (s : Step)
      → not_among s.name later_names ≡ true
      → behind_programs cluster deployer w ≡ running w'
      → IsSettled w s
      → IsSettled w' s
  later-Settled w w' s n h o =
      let (w₂, h₂, g₂) = then-eq-running _ (λ v. running (last_phase cluster deployer v)) h in
      let (w₁, h₁, g₁) = then-eq-running _ (markets_phase cluster deployer) h₂ in
      let o₁ =
        pools_phase-Settled cluster Exists get_account_info-Exists send-Exists token_account-Exists
          deployer w w₁ s n h₁ o in
      let o₂ =
        markets_phase-Settled cluster Exists get_account_info-Exists send-Exists
          token_account-Exists deployer w₁ w₂ s n g₁ o₁ in
      rw (← running-inj _ w' g₂) (
        last_phase-Settled cluster Exists get_account_info-Exists send-Exists token_account-Exists
          deployer w₂ s n o₂)

  -- A settled step of a run without failures has its account.
  IsSettled-exit_code :
      (w : World Chain) (s : Step) → exit_code w ≡ 0 → IsSettled w s → Exists w.chain s.account
  unfolding exit_code
  IsSettled-exit_code w s z (inl e) = e
  IsSettled-exit_code w s z (inr e) =
      absurd (failed-fail_count s.name w.state.steps e (ground arith))

  IsSettled-All :
      (w w' : World Chain) (ss : List Step)
      → clear_of later_names ss ≡ true
      → behind_programs cluster deployer w ≡ running w'
      → exit_code w' ≡ 0
      → All (IsSettled w) ss
      → All (λ s. Exists w'.chain s.account) ss
  IsSettled-All w w' [] n h z o = tt
  IsSettled-All w w' (s ∷ ss) n h z (o, os) = (
    IsSettled-exit_code w' s z (later-Settled w w' s (ground arith) h o),
    IsSettled-All w w' ss (ground arith) h z os,
  )

  run_main-exit_code :
      (w w' : World Chain)
      → run_main cluster deployer w ≡ running w'
      → exit_code w' ≡ 0
      → All (λ s. Exists w'.chain s.account) (vault ∷ program_steps cluster deployer)
  unfolding run_main
  run_main-exit_code w w' h z =
      let (v, f, g) =
        then-eq-running (programs_phase cluster deployer w) (behind_programs cluster deployer) h in
      IsSettled-All v w' (vault ∷ program_steps cluster deployer) (vault-clear_of cluster deployer)
        g z (programs_phase-Settled w v f)

  ended-exit_code :
      (w : World Chain) (r : Run Chain)
      → run_main cluster deployer w ≡ r
      → (ended r).code ≡ 0
      → All (λ s. Exists (ended r).world.chain s.account) (vault ∷ program_steps cluster deployer)
  ended-exit_code w (running w') h z = run_main-exit_code w w' h z
  ended-exit_code w (fatal w') h z = absurd (omega arith)

  main_by-exit_code :
      (w : World Chain) (b : Outcome ℕ)
      → (main_by cluster deployer w b).code ≡ 0
      → All
          (λ s. Exists (main_by cluster deployer w b).world.chain s.account)
          (vault ∷ program_steps cluster deployer)
  main_by-exit_code w (returned n) z =
      elim (ltb n lamports_per_sol)
          as (λ b.
            (if b then record { world = w; code = 1 } else ended (run_main cluster deployer w)).code
              ≡ 0
            → All
                (λ s.
                  Exists
                    (if b
                      then record { world = w; code = 1 }
                      else ended (run_main cluster deployer w)).world.chain
                    s.account)
                (vault ∷ program_steps cluster deployer)) [
                  | true ↦ λ z. absurd (omega arith)
                  | false ↦ λ z. ended-exit_code w _ refl z
                ]
        z
  main_by-exit_code w (thrown e) z = absurd (omega arith)

  -- If the run ends with exit code 0, whatever the state file held and whichever of its
  -- transactions failed in between, then the vault's configuration and all 24 accounts of
  -- `program_steps` exist: the configurations of the other ten programs and the operators of the
  -- vault, the engine and the oracle. Assumed of the cluster: an account that it reports exists;
  -- transactions and the lookup of a token account remove none; and the transaction of a step,
  -- where it succeeds, has created the account of that step.
  pub main-exit_code :
      (c : Chain) (file : Option State)
      → (main cluster deployer c file).code ≡ 0
      → All
          (λ s. Exists (main cluster deployer c file).world.chain s.account)
          (vault ∷ program_steps cluster deployer)
  unfolding main
  main-exit_code c file z =
      main_by-exit_code (record { chain = c; state = load_state file deployer; state_file = file })
        (cluster.get_balance c (base58 deployer)) z
