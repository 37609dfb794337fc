-- ===== src/Strategies/Signal.antt =====
-- trading_engine/strategies/base.py
use neuravex.Prelude.{String, List, Bool, any, ℕ, nat_eq}
use neuravex.Market.Regime.{
  MarketRegime, RegimeReading, strong_bull, bull, sideways, bear, high_volatility, crash,
}
use neuravex.Risk.Plan.{Direction}

-- The arrays of an OHLCV that the strategies read, oldest first.
pub record Ohlcv (F : Type 0) : Type 0 where
  pub high : List F
  pub low : List F
  pub close : List F
  pub volume : List F

-- A signal without its free-form `details`.
pub record StrategySignal (F : Type 0) : Type 0 where
  pub symbol : String
  pub direction : Direction
  pub confidence : F
  pub expected_return : F
  pub risk : F
  pub time_horizon : String
  pub strategy_name : String

-- The place of a regime in its enumeration.
abbrev position : MarketRegime → ℕ
position strong_bull = 0
position bull = 1
position sideways = 2
position bear = 3
position high_volatility = 4
position crash = 5

-- `==` of two regimes.
abbrev pub same_regime : MarketRegime → MarketRegime → Bool
same_regime a b = nat_eq (position a) (position b)

-- `Strategy.is_regime_allowed`, for a strategy's `allowed_regimes`.
unfoldable pub is_regime_allowed : {F : Type 0} → List MarketRegime → RegimeReading F → Bool
is_regime_allowed allowed regime = any (same_regime regime.market_regime) allowed
