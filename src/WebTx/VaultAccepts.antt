-- ===== src/WebTx/VaultAccepts.antt =====
-- `useDepositUSDC` and `useWithdrawUSDC` against the account constraints of perp_vault.
use sur_protocol_solana.Base.{
  ◌≡◌, refl, true, false, Bool, [], ◌∷◌, none, some, Option, Outcome, returned, ◌>>=◌, utf8, ap,
  ◌∙◌, Option-cases, inl, inr,
}
use sur_protocol_solana.Base.Keys.{string_eq}
use sur_protocol_solana.Base.Int.{ℤ}
use sur_protocol_solana.Programs.{program_ids}
use sur_protocol_solana.Pdas.Defs.{PublicKey, find_program_address}
use sur_protocol_solana.Pdas.Web.{vault_pda}
use sur_protocol_solana.WebTx.Defs.{Web3, Rpc, pda, CreateAta}
use sur_protocol_solana.WebTx.Hooks.{deposit, withdraw, ensure_ata, devnet_usdc_mint}
use sur_protocol_solana.WebTx.Engine.{vault_id, seeds_address}
use sur_protocol_solana.WebTx.EngineAccepts.{require_key_refl}
use sur_protocol_solana.WebTx.Vault.{
  VaultConfig, TokenAccount, Tokens, VaultChain, check_tokens, deposit_accounts, withdraw_accounts,
  execute,
}

-- The token account of the user, once it is there.
abbrev pub user_account : Web3 → PublicKey → TokenAccount
user_account w user = record { mint = w.public_key devnet_usdc_mint; owner = user }

abbrev pub user_ata : Web3 → PublicKey → PublicKey
user_ata w user = w.associated_token_address (w.public_key devnet_usdc_mint) user

abbrev pub user_creation : Web3 → PublicKey → CreateAta
user_creation w user = record {
  payer = user;
  ata = user_ata w user;
  owner = user;
  mint = w.public_key devnet_usdc_mint;
  program = w.token_program;
  ata_program = w.associated_token_program;
}

-- What the associated token program documents: where an address is free and is the one that the
-- mint and the owner have, the account is created there and the other accounts stay.
pub record CreatesAta (w : Web3) (create : Tokens → CreateAta → Outcome Tokens) : Type 0 where
  pub creates :
      (tokens : Tokens) (c : CreateAta)
      → c.ata ≡ w.associated_token_address c.mint c.owner
      → tokens c.ata ≡ none
      → (after : Tokens) × (create tokens c ≡ returned after)
        × (after c.ata ≡ some (record { mint = c.mint; owner = c.owner }))
        × ((key : PublicKey) (t : TokenAccount) → tokens key ≡ some t → after key ≡ some t)

-- The vault is initialised for the mint that the web client names, and the token account at the
-- user's associated address, if there is one, is the user's.
pub record IsFunded (w : Web3) (chain : VaultChain) (tokens : Tokens) (user : PublicKey)
    : Type 0 where
  pub config : VaultConfig
  pub custody : TokenAccount
  pub has_config :
      chain.vault_config_at (seeds_address w (utf8 "vault_config" ∷ []) vault_id) ≡ some config
  pub vault_known : config.usdc_vault ≡ seeds_address w (utf8 "usdc_vault" ∷ []) vault_id
  pub mint_known : config.usdc_mint ≡ w.public_key devnet_usdc_mint
  pub has_custody : tokens (seeds_address w (utf8 "usdc_vault" ∷ []) vault_id) ≡ some custody
  pub owned : (t : TokenAccount) → tokens (user_ata w user) ≡ some t → t ≡ user_account w user

abbrev pub is_there {ℓ} : {A : Type ℓ} → Option A → Bool
is_there none = false
is_there (some a) = true

abbrev pub HoldsAfter : Web3 → Tokens → PublicKey → Tokens → Type 0
HoldsAfter w tokens user after =
    (after (user_ata w user) ≡ some (user_account w user))
    × ((key : PublicKey) (t : TokenAccount) → tokens key ≡ some t → after key ≡ some t)

module _ (w : Web3) (chain : VaultChain) (tokens : Tokens) (rpc : Rpc) (amount : ℤ)
    (user : PublicKey) (create : Tokens → CreateAta → Outcome Tokens)
    (f : IsFunded w chain tokens user) where
  deposit_there :
      rpc.has_account_info (user_ata w user) ≡ returned true
      → tokens (user_ata w user) ≡ some (user_account w user)
      → (deposit w rpc amount user >>= execute create (deposit_accounts w chain user) tokens)
        ≡ returned tt
  unfolding deposit deposit_accounts ensure_ata vault_pda pda program_ids find_program_address
      check_tokens string_eq execute
  deposit_there seen held =
      simp (seen, held, require_key_refl, f.has_config, f.vault_known, f.mint_known, f.has_custody)

  deposit_missing :
      (after : Tokens)
      → rpc.has_account_info (user_ata w user) ≡ returned false
      → create tokens (user_creation w user) ≡ returned after
      → HoldsAfter w tokens user after
      → (deposit w rpc amount user >>= execute create (deposit_accounts w chain user) tokens)
        ≡ returned tt
  unfolding deposit deposit_accounts ensure_ata vault_pda pda program_ids find_program_address
      check_tokens string_eq execute
  deposit_missing after seen made held = simp (
    seen,
    made,
    held.0,
    held.1 _ _ f.has_custody,
    require_key_refl,
    f.has_config,
    f.vault_known,
    f.mint_known,
  )

  withdraw_there :
      rpc.has_account_info (user_ata w user) ≡ returned true
      → tokens (user_ata w user) ≡ some (user_account w user)
      → chain.balance_at (seeds_address w (utf8 "balance" ∷ user ∷ []) vault_id) ≡ some user
      → (withdraw w rpc amount user >>= execute create (withdraw_accounts w chain user) tokens)
        ≡ returned tt
  unfolding withdraw withdraw_accounts ensure_ata vault_pda pda program_ids find_program_address
      check_tokens string_eq execute
  withdraw_there seen held balance = simp (
    seen, held, balance, require_key_refl, f.has_config, f.vault_known, f.mint_known, f.has_custody,
  )

  withdraw_missing :
      (after : Tokens)
      → rpc.has_account_info (user_ata w user) ≡ returned false
      → create tokens (user_creation w user) ≡ returned after
      → HoldsAfter w tokens user after
      → chain.balance_at (seeds_address w (utf8 "balance" ∷ user ∷ []) vault_id) ≡ some user
      → (withdraw w rpc amount user >>= execute create (withdraw_accounts w chain user) tokens)
        ≡ returned tt
  unfolding withdraw withdraw_accounts ensure_ata vault_pda pda program_ids find_program_address
      check_tokens string_eq execute
  withdraw_missing after seen made held balance = simp (
    seen,
    made,
    held.0,
    held.1 _ _ f.has_custody,
    balance,
    require_key_refl,
    f.has_config,
    f.vault_known,
    f.mint_known,
  )

  -- Where the vault is initialised for the mint of the web client and the connection sees the token
  -- accounts as they are, the transaction of `useDepositUSDC` passes every account constraint of
  -- `deposit`, whether the user's token account was there or the transaction creates it first.
  pub deposit-accounts :
      CreatesAta w create
      → rpc.has_account_info (user_ata w user) ≡ returned (is_there (tokens (user_ata w user)))
      → (deposit w rpc amount user >>= execute create (deposit_accounts w chain user) tokens)
        ≡ returned tt
  deposit-accounts c seen = elim (Option-cases (tokens (user_ata w user))) [
    | inl free ↦
        let made = c.creates tokens (user_creation w user) refl free in
        deposit_missing made.0 (rw (← ap is_there free) seen) made.1 (made.2, made.3)
    | inr (t, held) ↦ deposit_there (rw (← ap is_there held) seen) (held ∙ ap some (f.owned t held))
  ]

  -- Where the vault is initialised for the mint of the web client, the connection sees the token
  -- accounts as they are and the user has a balance account, the transaction of `useWithdrawUSDC`
  -- passes every account constraint of `withdraw`, whether the user's token account was there or the
  -- transaction creates it first.
  pub withdraw-accounts :
      CreatesAta w create
      → rpc.has_account_info (user_ata w user) ≡ returned (is_there (tokens (user_ata w user)))
      → chain.balance_at (seeds_address w (utf8 "balance" ∷ user ∷ []) vault_id) ≡ some user
      → (withdraw w rpc amount user >>= execute create (withdraw_accounts w chain user) tokens)
        ≡ returned tt
  withdraw-accounts c seen balance = elim (Option-cases (tokens (user_ata w user))) [
    | inl free ↦
        let made = c.creates tokens (user_creation w user) refl free in
        withdraw_missing made.0 (rw (← ap is_there free) seen) made.1 (made.2, made.3) balance
    | inr (t, held) ↦
        withdraw_there (rw (← ap is_there held) seen) (held ∙ ap some (f.owned t held)) balance
  ]
