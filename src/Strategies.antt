-- ===== src/Strategies.antt =====
-- trading_engine/strategies: the track record of a strategy, the signals, and the four strategies.
pub mod Performance
pub mod Signal
pub mod Trend
pub mod Arrays
pub mod Breakout
pub mod Momentum
pub mod Reversion
pub mod Gates
pub mod Regimes
