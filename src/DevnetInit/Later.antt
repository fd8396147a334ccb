-- ===== src/DevnetInit/Later.antt =====
-- The phases of `main` behind `program_steps`, and a step that is settled before them.
use sur_protocol_solana.Base.{
  ℕ, ◌-◌, true, false, List, [], ◌∷◌, ◌≡◌, ◌⊎◌, inl, inr, Outcome, returned, thrown, some, arith,
  ltb, if◌then◌else◌,
}
use sur_protocol_solana.Base.Keys.{string_eq, get_key}
use sur_protocol_solana.DevnetInit.Defs.{
  Address, base58, pda, mint_to, Request, Cluster, skipped, failed, World, running, ◌then◌,
  set_step, then-eq-running, running-inj, save_state,
}
use sur_protocol_solana.DevnetInit.Pdas.{insurance_fund_authority_pda}
use sur_protocol_solana.DevnetInit.Steps.{Step}
use sur_protocol_solana.DevnetInit.Operators.{try_send}
use sur_protocol_solana.DevnetInit.Mint.{mint_test_usdc, top_up, top_up_of, test_usdc}
use sur_protocol_solana.DevnetInit.Pools.{
  fund_pda, bootstrap_engine_pool, bootstrap_insurance_pool, pda_lamports,
}
use sur_protocol_solana.DevnetInit.Markets.{markets, add_market}
use sur_protocol_solana.DevnetInit.Main.{pools_phase, markets_phase, last_phase}
use sur_protocol_solana.DevnetInit.Settled.{not_among, set_step-Settled, try_send-Settled}
use sur_protocol_solana.DevnetInit.Phases.{
  fund_pda-Settled, guarded_pool-Settled, add_markets-Settled, push_prices-Settled,
}
use Prim.Native.String.{String}

-- The keys that `main` sets behind `program_steps`.
abbrev pub later_names : List String
later_names =
    "perp_engine.bootstrap_engine_pool" ∷ "insurance_fund.bootstrap_insurance_pool"
    ∷ "engine.add_market.BTC-USD" ∷ "engine.add_market.SOL-USD" ∷ "engine.add_market.ETH-USD"
    ∷ "engine.update_mark_price.BTC-USD" ∷ "engine.update_mark_price.SOL-USD"
    ∷ "engine.update_mark_price.ETH-USD" ∷ "mint_test_usdc" ∷ []

module _ {Chain : Type 0} (cluster : Cluster Chain) (Exists : Chain → Address → Type 0)
    (get_account_info-Exists : (c : Chain) (a : Address)
      → cluster.get_account_info c a ≡ returned true
      → Exists c a)
    (send-Exists : (c : Chain) (r : Request) (a : Address)
      → Exists c a
      → Exists (cluster.send c r).0 a)
    (token_account-Exists : (c : Chain) (mint owner a : Address)
      → Exists c a
      → Exists (cluster.get_or_create_associated_token_account c mint owner).0 a) where
  abbrev pub Settles : World Chain → Step → Type 0
  Settles w s = Exists w.chain s.account ⊎ (get_key s.name w.state.steps ≡ some failed)

  top_up-Settled :
      (a : Address) (amount : ℕ) (w : World Chain) (s : Step)
      → string_eq "mint_test_usdc" s.name ≡ false
      → Settles w s
      → Settles (top_up cluster a amount w) s
  unfolding top_up
  top_up-Settled a amount w s n o =
      elim (ltb amount test_usdc)
        as (λ b.
          Settles
            (if b
              then try_send cluster "mint_test_usdc"
                  (mint_to (base58 w.state.usdc_mint) a (test_usdc - amount)) w
              else set_step "mint_test_usdc" skipped w)
            s) [
              | true ↦
                  try_send-Settled cluster Exists get_account_info-Exists send-Exists
                    "mint_test_usdc" _ w s n o
              | false ↦
                  set_step-Settled cluster Exists get_account_info-Exists send-Exists
                    "mint_test_usdc" skipped w s n o
            ]

  top_up_of-Settled :
      (r : Outcome (Address × ℕ)) (w : World Chain) (s : Step)
      → string_eq "mint_test_usdc" s.name ≡ false
      → Settles w s
      → Settles (top_up_of cluster w r) s
  top_up_of-Settled (returned (a, amount)) w s n o = top_up-Settled a amount w s n o
  top_up_of-Settled (thrown m) w s n o =
      set_step-Settled cluster Exists get_account_info-Exists send-Exists "mint_test_usdc" failed w
        s n o

  mint_test_usdc-Settled :
      (deployer : Address) (w : World Chain) (s : Step)
      → string_eq "mint_test_usdc" s.name ≡ false
      → Settles w s
      → Settles (mint_test_usdc cluster deployer w) s
  unfolding mint_test_usdc
  mint_test_usdc-Settled deployer w s n (inl e) =
      top_up_of-Settled _ _ s n (inl (token_account-Exists w.chain _ deployer s.account e))
  mint_test_usdc-Settled deployer w s n (inr e) = top_up_of-Settled _ _ s n (inr e)

  -- Behind `program_steps`, a phase sets none of their keys.
  pub pools_phase-Settled :
      (deployer : String) (w w' : World Chain) (s : Step)
      → not_among s.name later_names ≡ true
      → pools_phase cluster deployer w ≡ running w'
      → Settles w s
      → Settles w' s
  unfolding pools_phase bootstrap_engine_pool bootstrap_insurance_pool
  pools_phase-Settled deployer w w' s n h o =
      let (w₃, h₃, g₃) = then-eq-running _ (bootstrap_insurance_pool cluster (base58 deployer)) h in
      let (w₂, h₂, g₂) = then-eq-running _ (bootstrap_engine_pool cluster (base58 deployer)) h₃ in
      let (w₁, h₁, g₁) =
        then-eq-running _ (fund_pda cluster (pda insurance_fund_authority_pda) pda_lamports) h₂ in
      let o₁ =
        fund_pda-Settled cluster Exists get_account_info-Exists send-Exists _ _ w w₁ s h₁ o in
      let o₂ =
        fund_pda-Settled cluster Exists get_account_info-Exists send-Exists _ _ w₁ w₂ s g₁ o₁ in
      let o₃ =
        guarded_pool-Settled cluster Exists get_account_info-Exists send-Exists _ _ _ w₂ w₃ s
          (ground arith) g₂ o₂ in
      guarded_pool-Settled cluster Exists get_account_info-Exists send-Exists _ _ _ w₃ w' s
        (ground arith) g₃ o₃

  pub markets_phase-Settled :
      (deployer : String) (w w' : World Chain) (s : Step)
      → not_among s.name later_names ≡ true
      → markets_phase cluster deployer w ≡ running w'
      → Settles w s
      → Settles w' s
  unfolding markets_phase save_state markets add_market
  markets_phase-Settled deployer w w' s n h o =
      let (w₁, h₁, g₁) = then-eq-running _ (λ v. running (save_state v)) h in
      rw (← running-inj _ w' g₁) (
        add_markets-Settled cluster Exists get_account_info-Exists send-Exists (base58 deployer)
          markets _ w₁ s (ground arith) h₁ o)

  pub last_phase-Settled :
      (deployer : String) (w : World Chain) (s : Step)
      → not_among s.name later_names ≡ true
      → Settles w s
      → Settles (last_phase cluster deployer w) s
  unfolding last_phase save_state markets
  last_phase-Settled deployer w s n o =
      mint_test_usdc-Settled (base58 deployer) _ s (ground arith) (
        push_prices-Settled cluster Exists get_account_info-Exists send-Exists (base58 deployer)
          markets w s (ground arith) o)
