-- ===== src/Api.antt =====
-- The API's background work: clients/api/src/indexer.ts and clients/api/src/points.ts.
pub mod Indexer
pub mod Cursor
pub mod Resume
pub mod Limit
pub mod Points
pub mod Recompute
pub mod Totals
pub mod Deleting
pub mod Queries
pub mod Epochs
pub mod Ledger
pub mod ByWallet
