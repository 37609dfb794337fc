-- ===== src/Agent.antt =====
-- trading_engine/agent.py: the data of the agent. The exchange, the store and the strategies are
-- parameters: a record whose fields answer a call from the effects so far, so that no answer is
-- assumed to stay the same after an order.
pub mod Entry
pub mod Orders
pub mod Process
pub mod Tick
pub mod Effects
pub mod Passes
pub mod Safety
pub mod Gates
pub mod Held
pub mod Room
pub mod Sales
use neuravex.Prelude.{ℕ, String, Bool, Option, none, some, List, [], ◌∷◌}
use neuravex.Prelude.Dict.{Dict, get}
use neuravex.Market.Numpy.{Numpy}
use neuravex.Market.Regime.{
  MarketRegime, RegimeReading, strong_bull, bull, sideways, bear, high_volatility, crash,
}
use neuravex.Risk.Limits.{PortfolioState, TradeLimits}
use neuravex.Execution.LiveGuard.{Adapter}
use neuravex.Execution.Paper.{Side, OrderResult}
use neuravex.Strategies.Signal.{Ohlcv, StrategySignal}
use neuravex.Supervisor.{ClosedTrade, SupervisorVerdict}
use neuravex.Decision.{Decision}
use neuravex.Decision.Reasons.{Reason}

pub record AgentConfig (F : Type 0) : Type 0 where
  pub symbols : List String
  pub timeframe : String
  pub max_trade_risk : F
  pub max_daily_loss : F
  pub max_drawdown : F
  pub min_balance_floor : Option F
  -- max_open_positions, max_portfolio_exposure, max_position_size, cooldown_seconds,
  -- max_trades_per_hour and min_time_between_entries_seconds
  pub limits : TradeLimits F
  pub minimum_confidence : F
  pub minimum_expected_edge : F
  pub trading_mode : String
  pub allow_live_flag : Bool
  pub execution_mode : String
  pub dry_run : Bool
  pub closed_candles_only : Bool
  pub one_trade_per_candle : Bool
  pub estimated_transaction_cost : F
  pub round_trip_cost_by_symbol : Dict F
  pub min_agreeing_strategies : ℕ
  pub entry_regimes : Option (List String)
  pub timeframe_aware_regime : Bool
  pub analysis_log_window_seconds : Option ℕ
  pub supervisor_enabled : Bool
  pub signal_exit_ema : Option ℕ
  pub entry_trend_ema : Option ℕ
  pub entry_min_breadth : Option F
  pub stop_atr_multiple : F

-- A candle with its opening time in naive UTC.
pub record Candle (F : Type 0) : Type 0 where
  pub open_time : ℕ
  pub high : F
  pub low : F
  pub close : F
  pub volume : F

pub record PlannedOrder (F : Type 0) : Type 0 where
  pub symbol : String
  pub side : Side
  pub quantity : F
  pub limit_price : Option F
  pub stop_loss : F
  pub take_profit_1 : F
  pub take_profit_2 : F
  pub confidence : F
  pub reasons_for : List (Reason F)
  pub reasons_against : List (Reason F)

-- A call of the agent that changes something outside of it. `order_sent` is the call of the exchange,
-- whether it succeeds or raises.
pub data Effect (F : Type 0) : Type 0 where
  signal_saved : StrategySignal F → Effect F
  decision_saved : Decision F → Effect F
  order_sent : String → Side → F → Effect F
  order_saved : OrderResult F → Option ℕ → Effect F
  execution_queued : Option ℕ → PlannedOrder F → Effect F
  trade_recorded : String → Option F → OrderResult F → Effect F
  event_saved : String → Effect F
  halt_noted : Effect F

-- The effects so far, the latest first.
abbrev pub History : Type 0 → Type 0
History F = List (Effect F)

-- What the agent calls. `none` stands for an exception, except in `strategies` and in the answer of
-- `reference_price`, where it is the None of the code.
pub record World (F : Type 0) : Type 0 where
  pub numpy : Numpy F
  pub adapter : Adapter
  pub clock : History F → ℕ
  pub get_candles : History F → String → Option (List (Candle F))
  pub reference_price : History F → String → Option F
  pub create_order : History F → String → Side → F → Option (OrderResult F)
  pub has_pending_order : History F → String → Side → Bool
  pub get_portfolio_state : Option (PortfolioState F)
  pub recent_closed_trades : History F → Option (List (ClosedTrade F))
  pub new_decision_id : History F → ℕ
  pub strategies : List (String → Ohlcv F → RegimeReading F → Option (StrategySignal F))
  pub strategy_performance : Dict F
  pub correlation_matrix : Dict (Dict F)

-- The state of one tick: the portfolio as the agent knows it, its own fields, and the effects so far.
pub record Agent (F : Type 0) : Type 0 where
  pub state : PortfolioState F
  pub quiet_symbols : List String
  pub verdict : SupervisorVerdict F
  pub breadth : Option F
  pub history : History F

-- A value, or an exception with the object that the call worked on, as it was left.
pub data Outcome (A : Type 0) : Type 0 where
  value : A → Outcome A
  raised : A → Outcome A

abbrev pub timeframe_seconds_by_name : Dict ℕ
timeframe_seconds_by_name =
    ("1m", 60) ∷ ("5m", 300) ∷ ("15m", 900) ∷ ("1h", 3_600) ∷ ("4h", 14_400) ∷ ("1d", 86_400) ∷ []

-- `_timeframe_seconds`; `none` is the ValueError.
unfoldable pub timeframe_seconds : {F : Type 0} → AgentConfig F → Option ℕ
timeframe_seconds cfg = get cfg.timeframe timeframe_seconds_by_name

abbrev pub regime_name : MarketRegime → String
regime_name strong_bull = "STRONG_BULL"
regime_name bull = "BULL"
regime_name sideways = "SIDEWAYS"
regime_name bear = "BEAR"
regime_name high_volatility = "HIGH_VOLATILITY"
regime_name crash = "CRASH"

module _ {F : Type 0} where
  -- One more effect.
  abbrev pub emit : Effect F → Agent F → Agent F
  emit e a = record a { history = e ∷ a.history }
