-- ===== src/EngineView.antt =====
-- `PerpEngineView`: clients/sdk/src/views/perp_engine_view.ts, and the check of the program that
-- its figures stand for, programs/perp_engine/src/instructions/liquidate_position.rs.
pub mod Accounts
pub mod View
pub mod Program
pub mod Totals
pub mod Order
pub mod Pnl
pub mod Bounds
pub mod Filter
pub mod Liquidation
