-- ===== src/Tests/WebVault.antt =====
-- A deposit of a user without a token account, and a withdrawal of one with an account.
use sur_protocol_solana.Base.{
  ◌≡◌, refl, ap, true, [], ◌∷◌, utf8, none, some, returned, Outcome, ◌>>=◌, arith, if◌then◌else◌,
  Bool-cases, inl, inr,
}
use sur_protocol_solana.Base.Int.{pos}
use sur_protocol_solana.Base.Keys.{bytes_eq, bytes_eq_refl, bytes_eq→≡}
use sur_protocol_solana.Pdas.Defs.{PublicKey}
use sur_protocol_solana.WebTx.Defs.{Rpc, CreateAta}
use sur_protocol_solana.WebTx.Hooks.{deposit, withdraw, devnet_usdc_mint}
use sur_protocol_solana.WebTx.Engine.{vault_id, seeds_address}
use sur_protocol_solana.WebTx.Vault.{
  TokenAccount, Tokens, VaultChain, deposit_accounts, withdraw_accounts, execute,
}
use sur_protocol_solana.WebTx.VaultAccepts.{
  user_account, user_ata, CreatesAta, IsFunded, deposit-accounts, withdraw-accounts,
}
use sur_protocol_solana.Tests.WebTx.{web3, trader, rpc}

abbrev usdc_vault : PublicKey
usdc_vault = seeds_address web3 (utf8 "usdc_vault" ∷ []) vault_id

abbrev mint : PublicKey
mint = utf8 devnet_usdc_mint

abbrev custody : TokenAccount
custody = record { mint = mint; owner = utf8 "vault" }

-- The vault's own account alone, and with the user's.
abbrev empty_tokens : Tokens
empty_tokens key = if bytes_eq key usdc_vault then some custody else none

abbrev user_tokens : Tokens
user_tokens key =
    if bytes_eq key usdc_vault
    then some custody
    else if bytes_eq key (user_ata web3 trader)
    then some (user_account web3 trader)
    else none

abbrev chain : VaultChain
chain = record {
  vault_config_at = λ key. some (record { usdc_vault = usdc_vault; usdc_mint = mint });
  balance_at = λ key. some trader;
}

-- An associated token program: the new account stands in front of the others.
abbrev create : Tokens → CreateAta → Outcome Tokens
create tokens c = returned (λ key.
    if bytes_eq key c.ata then some (record { mint = c.mint; owner = c.owner }) else tokens key)

create-CreatesAta : CreatesAta web3 create
create-CreatesAta = record { creates = creates }
  where
    stays :
        (tokens : Tokens) (ata key : PublicKey) (new t : TokenAccount)
        → tokens ata ≡ none
        → tokens key ≡ some t
        → (if bytes_eq key ata then some new else tokens key) ≡ some t
    stays tokens ata key new t free h = elim (Bool-cases (bytes_eq key ata)) [
      | inl e ↦
          let same : key ≡ ata = bytes_eq→≡ key ata e in
          absurd (ground (arith, ap tokens same, free, h))
      | inr e ↦ rw e h
    ]

    creates :
        (tokens : Tokens) (c : CreateAta)
        → c.ata ≡ web3.associated_token_address c.mint c.owner
        → tokens c.ata ≡ none
        → (after : Tokens) × (create tokens c ≡ returned after)
          × (after c.ata ≡ some (record { mint = c.mint; owner = c.owner }))
          × ((key : PublicKey) (t : TokenAccount) → tokens key ≡ some t → after key ≡ some t)
    creates tokens c at free = (
      λ key.
          if bytes_eq key c.ata
          then some (record { mint = c.mint; owner = c.owner })
          else tokens key,
      refl,
      rw (bytes_eq_refl c.ata) refl,
      λ key t h. stays tokens c.ata key (record { mint = c.mint; owner = c.owner }) t free h,
    )

empty-IsFunded : IsFunded web3 chain empty_tokens trader
empty-IsFunded = record {
  config = record { usdc_vault = usdc_vault; usdc_mint = mint };
  custody = custody;
  has_config = refl;
  vault_known = refl;
  mint_known = refl;
  has_custody = refl;
  owned = λ t h. absurd (cc);
}

user-IsFunded : IsFunded web3 chain user_tokens trader
user-IsFunded = record {
  config = record { usdc_vault = usdc_vault; usdc_mint = mint };
  custody = custody;
  has_config = refl;
  vault_known = refl;
  mint_known = refl;
  has_custody = refl;
  owned = λ t h. cc;
}

deposit-accounts_example :
    (deposit web3 rpc (pos 1_000_000) trader
      >>= execute create (deposit_accounts web3 chain trader) empty_tokens)
    ≡ returned tt
deposit-accounts_example =
    deposit-accounts web3 chain empty_tokens rpc (pos 1_000_000) trader create empty-IsFunded
      create-CreatesAta refl

abbrev seeing_rpc : Rpc
seeing_rpc = record rpc { has_account_info = λ key. returned true }

withdraw-accounts_example :
    (withdraw web3 seeing_rpc (pos 500_000) trader
      >>= execute create (withdraw_accounts web3 chain trader) user_tokens)
    ≡ returned tt
withdraw-accounts_example =
    withdraw-accounts web3 chain user_tokens seeing_rpc (pos 500_000) trader create user-IsFunded
      create-CreatesAta refl refl
