-- ===== src/DevnetInit/Mint.antt =====
-- The first steps of `main`, which are not like the rest: the balance, the USDC mint and the
-- vault, and the last of them, the deployer's test USDC.
use sur_protocol_solana.Base.{
  ℕ, ◌*◌, ◌-◌, Bool, true, false, not, [], ◌∷◌, Outcome, returned, thrown, if◌then◌else◌, ltb,
}
use sur_protocol_solana.Base.Keys.{string_eq}
use sur_protocol_solana.Programs.{perp_vault}
use sur_protocol_solana.DevnetInit.Defs.{
  Address, base58, pda, system_program_id, token_program_id, sysvar_rent_pubkey, bn, Request, rpc,
  mint_to, Cluster, skipped, failed, World, Run, running, fatal, ◌then◌, set_step, save_state,
}
use sur_protocol_solana.DevnetInit.Pdas.{vault_config_pda, vault_authority_pda, usdc_vault_pda}
use sur_protocol_solana.DevnetInit.Operators.{try_send}
use Prim.Native.String.{String}

-- `state.usdcMint && state.usdcMint.length > 0`
abbrev pub has_text : String → Bool
has_text s = not (string_eq s "")

unfoldable pub vault_request : Address → String → Request
vault_request deployer usdc_mint = rpc perp_vault "initialize" (bn 0 ∷ bn 0 ∷ bn 0 ∷ []) (
    ("vaultConfig", pda vault_config_pda)
    ∷ ("vaultAuthority", pda vault_authority_pda)
    ∷ ("usdcMint", base58 usdc_mint)
    ∷ ("usdcVault", pda usdc_vault_pda)
    ∷ ("owner", deployer)
    ∷ ("systemProgram", system_program_id)
    ∷ ("tokenProgram", token_program_id)
    ∷ ("rent", sysvar_rent_pubkey)
    ∷ [])

abbrev pub test_usdc : ℕ
test_usdc = 1_000_000 * 1_000_000

module _ {Chain : Type 0} (cluster : Cluster Chain) where
  abbrev pub set_mint : String → World Chain → World Chain
  set_mint mint w = save_state (record w { state = record w.state { usdc_mint = mint } })

  abbrev pub set_mint_of : World Chain → Outcome String → Run Chain
  set_mint_of w (returned mint) = running (set_mint mint w)
  set_mint_of w (thrown e) = fatal w

  -- The mint that the vault is bound to, else the state file's, else a new one.
  unfoldable pub usdc_mint_step : Bool → World Chain → Run Chain
  usdc_mint_step true w = set_mint_of w (cluster.fetch_usdc_mint w.chain (pda vault_config_pda))
  usdc_mint_step false w =
      let created = cluster.create_mint w.chain in
      if has_text w.state.usdc_mint
      then running (set_mint w.state.usdc_mint w)
      else set_mint_of (record w { chain = created.0 }) created.1

  -- `perp_vault.initialize`, by the test that was made before the mint.
  unfoldable pub vault_step : Address → Bool → World Chain → World Chain
  vault_step deployer true w = set_step "perp_vault.initialize" skipped w
  vault_step deployer false w =
      try_send cluster "perp_vault.initialize" (vault_request deployer w.state.usdc_mint) w

  abbrev pub vault_by : Address → World Chain → Outcome Bool → Run Chain
  vault_by deployer w (returned vault_existed) =
      usdc_mint_step vault_existed w then λ w'. running (vault_step deployer vault_existed w')
  vault_by deployer w (thrown e) = fatal w

  unfoldable pub mint_and_vault : Address → World Chain → Run Chain
  mint_and_vault deployer w =
      vault_by deployer w (cluster.get_account_info w.chain (pda vault_config_pda))

  -- What follows once the deployer's token account is there.
  unfoldable pub top_up : Address → ℕ → World Chain → World Chain
  top_up account amount w =
      if ltb amount test_usdc
      then try_send cluster "mint_test_usdc"
          (mint_to (base58 w.state.usdc_mint) account (test_usdc - amount)) w
      else set_step "mint_test_usdc" skipped w

  abbrev pub top_up_of : World Chain → Outcome (Address × ℕ) → World Chain
  top_up_of w (returned ata) = top_up ata.0 ata.1 w
  top_up_of w (thrown e) = set_step "mint_test_usdc" failed w

  unfoldable pub mint_test_usdc : Address → World Chain → World Chain
  mint_test_usdc deployer w =
      let ata =
        cluster.get_or_create_associated_token_account w.chain (base58 w.state.usdc_mint)
          deployer in
      top_up_of (record w { chain = ata.0 }) ata.1
