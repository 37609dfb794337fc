-- ===== src/Market.antt =====
-- Market data and what the engine reads off it: candles and series, indicators, regimes.
pub mod Numpy
pub mod Indicators
pub mod Regime
