-- ===== src/Backtest.antt =====
-- trading_engine/backtesting/engine.py: the records, and what a bar sees of the candles.
pub mod Engine
pub mod Rounds
pub mod Lookahead
pub mod Ledger
use neuravex.Prelude.{ℕ, suc, String, Bool, Option, List, map, take}
use neuravex.Risk.Plan.{Direction}
use neuravex.Strategies.Signal.{Ohlcv}
use neuravex.Strategies.Regimes.{GenerateSignal}
use neuravex.Agent.{Candle}

pub data TradeExit : Type 0 where
  stop target opposite_signal : TradeExit

pub record Trade (F : Type 0) : Type 0 where
  pub symbol : String
  pub direction : Direction
  pub entry_index : ℕ
  pub entry_price : F
  pub exit_index : Option ℕ
  pub exit_price : Option F
  pub quantity : F
  pub pnl : F
  pub exit_reason : Option TradeExit

pub record BacktestResult (F : Type 0) : Type 0 where
  pub trades : List (Trade F)
  pub equity_curve : List F
  pub final_equity : F
  pub max_drawdown : F
  pub win_rate : F
  pub total_return : F

pub record BacktestRequest (F : Type 0) : Type 0 where
  pub symbol : String
  pub strategies : List (GenerateSignal F)
  pub starting_equity : F
  pub max_trade_risk : F
  pub max_position_size : F
  pub minimum_confidence : F
  pub minimum_expected_edge : F
  pub fee_rate : F
  pub slippage_bps : F
  pub spot_only : Bool
  pub warmup_bars : ℕ

-- The variables of the loop.
pub record Run (F : Type 0) : Type 0 where
  pub equity : F
  pub peak_equity : F
  pub equity_curve : List F
  pub trades : List (Trade F)
  pub open_trade : Option (Trade F)
  pub max_dd : F

abbrev pub columns : {F : Type 0} → List (Candle F) → Ohlcv F
columns candles = record {
  high = map (λ c. c.high) candles;
  low = map (λ c. c.low) candles;
  close = map (λ c. c.close) candles;
  volume = map (λ c. c.volume) candles;
}

-- The arrays up to and with index i.
abbrev pub window_at : {F : Type 0} → ℕ → Ohlcv F → Ohlcv F
window_at i all = record {
  high = take (suc i) all.high;
  low = take (suc i) all.low;
  close = take (suc i) all.close;
  volume = take (suc i) all.volume;
}
