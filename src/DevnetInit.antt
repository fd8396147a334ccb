-- ===== src/DevnetInit.antt =====
-- scripts/devnet-init.ts, the bring-up of the programs on devnet.
pub mod Defs
pub mod Pdas
pub mod Agree
pub mod Steps
pub mod Operators
pub mod Main
pub mod Mint
pub mod Pools
pub mod Markets
pub mod Settled
pub mod Phases
pub mod Later
pub mod Names
pub mod Complete
pub mod Again
pub mod Stale
