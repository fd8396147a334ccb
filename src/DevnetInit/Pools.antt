-- ===== src/DevnetInit/Pools.antt =====
-- `fundPda` and the pools: a token account, its USDC, and the pool's balance in the vault.
use sur_protocol_solana.Base.{
  ℕ, ◌*◌, ◌-◌, ◌/◌, Bool, true, false, List, [], ◌∷◌, Outcome, returned, thrown, if◌then◌else◌, leb,
}
use sur_protocol_solana.Programs.{perp_vault, perp_engine, insurance_fund, script_program_ids}
use sur_protocol_solana.DevnetInit.Defs.{
  Address, base58, pda, system_program_id, token_program_id, bn, Request, rpc, transfer, mint_to,
  create_token_account, Cluster, failed, World, Run, running, fatal, ◌then◌, set_step,
}
use sur_protocol_solana.DevnetInit.Pdas.{
  vault_config_pda, usdc_vault_pda, account_balance_pda, engine_config_pda, engine_authority_pda,
  insurance_fund_config_pda, insurance_fund_authority_pda,
}
use sur_protocol_solana.DevnetInit.Operators.{status_of}
use Prim.Native.String.{String}

-- `0.1 * LAMPORTS_PER_SOL`
abbrev pub pda_lamports : ℕ
pda_lamports = 1_000_000_000 / 10

module _ {Chain : Type 0} (cluster : Cluster Chain) where
  abbrev pub sent_of : World Chain → Chain × Outcome (Unit {0}) → Run Chain
  sent_of w (c, returned u) = running (record w { chain = c })
  sent_of w (c, thrown e) = fatal (record w { chain = c })

  abbrev pub fund_by : Address → ℕ → World Chain → Outcome ℕ → Run Chain
  fund_by address lamports w (returned cur) =
      if leb lamports cur
      then running w
      else sent_of w (cluster.send w.chain (transfer address (lamports - cur)))
  fund_by address lamports w (thrown e) = fatal w

  -- `fundPda(pdaAddr, lamports, label)`, which no `try` surrounds
  unfoldable pub fund_pda : Address → ℕ → World Chain → Run Chain
  fund_pda address lamports w = fund_by address lamports w (cluster.get_balance w.chain address)

  -- Requests in a `try`: the first that fails ends it.
  unfoldable pub send_all : List Request → Chain → Chain × Outcome (Unit {0})
  send_all [] c = (c, returned tt)
  send_all (r ∷ rs) c =
      let sent = cluster.send c r in
      let rest = send_all rs sent.0 in
      elim sent.1 [ returned u ↦ rest | thrown e ↦ (sent.0, thrown e) ]

  -- What the two blocks have in common; `rest` is the bootstrap transaction.
  unfoldable pub pool_requests : ℕ → String → Address → ℕ → Request → List Request
  pool_requests rent usdc_mint authority pool_seed rest =
      let authority_usdc = cluster.authority_usdc authority in
      create_token_account authority_usdc rent (base58 usdc_mint) authority
      ∷ mint_to (base58 usdc_mint) authority_usdc pool_seed
      ∷ rest
      ∷ []

  abbrev pub try_pool : String → (ℕ → List Request) → World Chain → Outcome ℕ → World Chain
  try_pool name requests w (returned rent) =
      let sent = send_all (requests rent) w.chain in
      set_step name (status_of sent.1) (record w { chain = sent.0 })
  try_pool name requests w (thrown e) = set_step name failed w

  abbrev pub pool_by : String → (ℕ → List Request) → World Chain → Outcome Bool → Run Chain
  pool_by name requests w (returned true) = running w
  pool_by name requests w (returned false) =
      running (try_pool name requests w (cluster.get_minimum_balance_for_rent w.chain))
  pool_by name requests w (thrown e) = fatal w

  abbrev pub guarded_pool : Address → String → (ℕ → List Request) → World Chain → Run Chain
  guarded_pool balance name requests w =
      pool_by name requests w (cluster.get_account_info w.chain balance)

  unfoldable pub engine_pool_balance : Address
  engine_pool_balance = pda (account_balance_pda (cluster.to_buffer (pda engine_authority_pda)))

  unfoldable pub insurance_pool_balance : Address
  insurance_pool_balance =
      pda (account_balance_pda (cluster.to_buffer (pda insurance_fund_authority_pda)))

  unfoldable pub engine_pool_request : Address → Request
  engine_pool_request deployer =
      rpc perp_engine "bootstrapEnginePool" (bn (50_000 * 1_000_000) ∷ []) (
        ("engineConfig", pda engine_config_pda)
        ∷ ("authority", pda engine_authority_pda)
        ∷ ("perpVaultProgram", base58 (script_program_ids perp_vault))
        ∷ ("vaultConfig", pda vault_config_pda)
        ∷ ("usdcVault", pda usdc_vault_pda)
        ∷ ("authorityUsdc", cluster.authority_usdc (pda engine_authority_pda))
        ∷ ("enginePoolBalance", engine_pool_balance)
        ∷ ("tokenProgram", token_program_id)
        ∷ ("owner", deployer)
        ∷ ("systemProgram", system_program_id)
        ∷ [])

  unfoldable pub insurance_pool_request : Address → Request
  insurance_pool_request deployer =
      rpc insurance_fund "bootstrapInsurancePool" (bn (10_000 * 1_000_000) ∷ []) (
        ("config", pda insurance_fund_config_pda)
        ∷ ("authority", pda insurance_fund_authority_pda)
        ∷ ("perpVaultProgram", base58 (script_program_ids perp_vault))
        ∷ ("vaultConfig", pda vault_config_pda)
        ∷ ("usdcVault", pda usdc_vault_pda)
        ∷ ("authorityUsdc", cluster.authority_usdc (pda insurance_fund_authority_pda))
        ∷ ("fundPoolBalance", insurance_pool_balance)
        ∷ ("tokenProgram", token_program_id)
        ∷ ("owner", deployer)
        ∷ ("systemProgram", system_program_id)
        ∷ [])

  unfoldable pub bootstrap_engine_pool : Address → World Chain → Run Chain
  bootstrap_engine_pool deployer w =
      let authority = pda engine_authority_pda in
      let pool_seed = 50_000 * 1_000_000 in
      guarded_pool engine_pool_balance "perp_engine.bootstrap_engine_pool"
        (λ rent.
          pool_requests rent w.state.usdc_mint authority pool_seed (engine_pool_request deployer))
        w

  unfoldable pub bootstrap_insurance_pool : Address → World Chain → Run Chain
  bootstrap_insurance_pool deployer w =
      let authority = pda insurance_fund_authority_pda in
      let pool_seed = 10_000 * 1_000_000 in
      guarded_pool insurance_pool_balance "insurance_fund.bootstrap_insurance_pool"
        (λ rent.
          pool_requests rent w.state.usdc_mint authority pool_seed
            (insurance_pool_request deployer))
        w
