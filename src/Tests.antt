-- ===== src/Tests.antt =====
-- The theorems at concrete inputs, and runs of the definitions.
mod Engine
mod Orders
mod Pdas
mod Bringup
mod Candles
mod Markets
mod WebTx
mod WebVault
mod WebDarkpool
mod WebData
mod Formatters
mod Indexing
mod Points
mod Panels
