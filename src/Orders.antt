-- ===== src/Orders.antt =====
-- Signed orders: clients/sdk/src/views/order_settlement.ts, and the message that the program
-- rebuilds, programs/order_settlement/src/signature.rs.
pub mod Message
pub mod Signing
pub mod Layout
pub mod Binding
pub mod Program
