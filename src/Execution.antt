-- ===== src/Execution.antt =====
-- trading_engine/execution: the interlock for live orders, the paper exchange, the routes and
-- markets, and the monitor of open positions.
pub mod LiveGuard
pub mod Monitor
pub mod Universe
pub mod Symbol
pub mod Paper
pub mod Rows
pub mod Pending
