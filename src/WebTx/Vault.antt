-- ===== src/WebTx/Vault.antt =====
-- The account constraints of `deposit` and `withdraw` in programs/perp_vault, and a transaction as
-- the instructions that run one behind the other.
use sur_protocol_solana.Base.{[], ◌∷◌, Option, Outcome, returned, ◌>>=◌, ◌>>◌, utf8, List}
use sur_protocol_solana.Pdas.Defs.{PublicKey}
use sur_protocol_solana.WebTx.Defs.{Web3, Call, CreateAta, Instruction, call, create_ata}
use sur_protocol_solana.WebTx.Engine.{vault_id, seeds_address, require_key, account, or_error}

-- The fields that the constraints read.
pub record VaultConfig : Type 0 where
  pub usdc_vault : PublicKey
  pub usdc_mint : PublicKey

pub record TokenAccount : Type 0 where
  pub mint : PublicKey
  pub owner : PublicKey

-- The token accounts, by address.
abbrev pub Tokens : Type 0
Tokens = PublicKey → Option TokenAccount

-- The accounts of the vault, by address; a balance is given by its trader.
pub record VaultChain : Type 0 where
  pub vault_config_at : PublicKey → Option VaultConfig
  pub balance_at : PublicKey → Option PublicKey

-- The constraints on `usdc_vault` and `user_usdc`.
unfoldable pub check_tokens :
    VaultConfig → Tokens → PublicKey → PublicKey → PublicKey → Outcome (Unit {0})
unfolding require_key
check_tokens cfg tokens usdc_vault user_usdc user = do
  _ ← or_error (tokens usdc_vault) "AccountNotInitialized"
  require_key usdc_vault cfg.usdc_vault "ConstraintRaw"
  user_account ← or_error (tokens user_usdc) "AccountNotInitialized"
  require_key user_account.mint cfg.usdc_mint "UsdcMintMismatch"
  require_key user_account.owner user "ConstraintRaw"

-- `Deposit`; the balance may be new: it is created at the address of its seeds.
unfoldable pub deposit_accounts : Web3 → VaultChain → PublicKey → Tokens → Call → Outcome (Unit {0})
unfolding check_tokens require_key
deposit_accounts w chain signer tokens ix = do
  vault_config ← account ix "vaultConfig"
  usdc_vault ← account ix "usdcVault"
  user_usdc ← account ix "userUsdc"
  account_balance ← account ix "accountBalance"
  depositor ← account ix "depositor"
  token_program ← account ix "tokenProgram"
  system_program ← account ix "systemProgram"
  cfg ← or_error (chain.vault_config_at vault_config) "AccountNotInitialized"
  require_key vault_config (seeds_address w (utf8 "vault_config" ∷ []) vault_id) "ConstraintSeeds"
  check_tokens cfg tokens usdc_vault user_usdc depositor
  require_key account_balance (seeds_address w (utf8 "balance" ∷ depositor ∷ []) vault_id)
      "ConstraintSeeds"
  require_key depositor signer "AccountNotSigner"
  require_key token_program w.token_program "InvalidProgramId"
  require_key system_program w.system_program "InvalidProgramId"

-- `Withdraw`
unfoldable pub withdraw_accounts :
    Web3 → VaultChain → PublicKey → Tokens → Call → Outcome (Unit {0})
unfolding check_tokens require_key
withdraw_accounts w chain signer tokens ix = do
  vault_config ← account ix "vaultConfig"
  vault_authority ← account ix "vaultAuthority"
  usdc_vault ← account ix "usdcVault"
  user_usdc ← account ix "userUsdc"
  account_balance ← account ix "accountBalance"
  withdrawer ← account ix "withdrawer"
  token_program ← account ix "tokenProgram"
  cfg ← or_error (chain.vault_config_at vault_config) "AccountNotInitialized"
  require_key vault_config (seeds_address w (utf8 "vault_config" ∷ []) vault_id) "ConstraintSeeds"
  require_key vault_authority (seeds_address w (utf8 "vault_authority" ∷ []) vault_id)
      "ConstraintSeeds"
  check_tokens cfg tokens usdc_vault user_usdc withdrawer
  trader ← or_error (chain.balance_at account_balance) "AccountNotInitialized"
  require_key account_balance (seeds_address w (utf8 "balance" ∷ withdrawer ∷ []) vault_id)
      "ConstraintSeeds"
  require_key trader withdrawer "ConstraintRaw"
  require_key withdrawer signer "AccountNotSigner"
  require_key token_program w.token_program "InvalidProgramId"

-- The instructions of a transaction in their order: `create` is the associated token program, and
-- `check` the account constraints of the program that a call names.
unfoldable pub execute :
    (Tokens → CreateAta → Outcome Tokens)
    → (Tokens → Call → Outcome (Unit {0}))
    → Tokens
    → List Instruction
    → Outcome (Unit {0})
execute create check tokens [] = returned tt
execute create check tokens (create_ata c ∷ rest) = do
  after ← create tokens c
  execute create check after rest
execute create check tokens (call ix ∷ rest) = do check tokens ix; execute create check tokens rest
