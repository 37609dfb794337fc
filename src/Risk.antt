-- ===== src/Risk.antt =====
-- trading_engine/risk: the limits, the risk plan, the size of a position, and the exits.
pub mod Plan
pub mod Sizing
pub mod Exits
pub mod Limits
