-- ===== src/WebTx.antt =====
-- The transactions of the web client: clients/web/hooks/tx/, and the account constraints of the
-- programs that they call, programs/perp_engine, programs/perp_vault and programs/a2a_darkpool.
pub mod Defs
pub mod Hooks
pub mod Engine
pub mod EngineAccepts
pub mod CloseListed
pub mod Vault
pub mod VaultAccepts
pub mod Darkpool
pub mod DarkpoolAccepts
pub mod Respond
pub mod Sending
