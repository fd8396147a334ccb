-- ===== src/WebData.antt =====
-- What the web client reads from the chain: clients/web/hooks/data/.
pub mod Intents
pub mod Reputation
pub mod Positions
pub mod Balance
pub mod Markets
