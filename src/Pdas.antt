-- ===== src/Pdas.antt =====
-- Program derived addresses: clients/sdk/src/pdas.ts and clients/web/lib/pdas.ts.
pub mod Defs
pub mod Sdk
pub mod SdkHelpers
pub mod Web
pub mod WebHelpers
pub mod Injective
pub mod Accounts
pub mod Distinct
pub mod Agree
