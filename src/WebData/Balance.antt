-- ===== src/WebData/Balance.antt =====
-- The balance in the vault: clients/web/hooks/data/use-vault-balance.ts.
use sur_protocol_solana.Base.{ℕ, Option, none, some, Outcome, returned, thrown, ◌>>=◌}
use sur_protocol_solana.Pdas.Defs.{PublicKey, account_balance}
use sur_protocol_solana.Pdas.Web.{vault_pda}
use sur_protocol_solana.WebTx.Defs.{Web3, pda}

-- `interface AccountBalanceAccount`
pub record AccountBalanceAccount : Type 0 where
  pub bump : ℕ
  pub trader : PublicKey
  pub balance : ℕ
  pub collateral_balance : ℕ

-- What the `try` block and its `catch` return.
unfoldable pub balance_or_zero : Outcome (Option AccountBalanceAccount) → ℕ
balance_or_zero (returned none) = 0
balance_or_zero (returned (some acc)) = acc.balance
balance_or_zero (thrown e) = 0

-- `queryFn`
unfoldable pub vault_balance :
    Web3 → (PublicKey → Outcome (Option AccountBalanceAccount)) → Option PublicKey → Outcome ℕ
unfolding balance_or_zero vault_pda pda
vault_balance w fetch_nullable none = returned 0
vault_balance w fetch_nullable (some trader) = do
  balance_pda ← pda w (vault_pda (account_balance trader))
  returned (balance_or_zero (fetch_nullable balance_pda))
