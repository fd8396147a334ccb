-- ===== src/Panels.antt =====
-- The forms of the web client that send transactions: OrderPanel.tsx and DepositWithdrawPanel.tsx of
-- clients/web/components/trading.
pub mod Order
pub mod Funds
