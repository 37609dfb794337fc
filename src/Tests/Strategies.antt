-- ===== src/Tests/Strategies.antt =====
-- The strategies and the backtester at concrete numbers.
use Prim.Native.Nat.{◌+◌ as add_ℕ, ◌-◌ as monus}
use neuravex.Prelude.{
  ℕ, zero, suc, ◌≡◌, ◌≢◌, refl, inl, true, some, none, List, [], ◌∷◌, ◌++◌, arith, length, or_else,
}
use neuravex.Float.{lit}
use neuravex.Float.Fixed.{Fixed, Fixed-IsIeee, fixed_float}
use neuravex.Market.Regime.{RegimeReading, bear, detect_regime}
use neuravex.Strategies.Signal.{Ohlcv, is_regime_allowed}
use neuravex.Strategies.Trend.{
  trend_following, trend_regimes, trend_signal, trend_choice, trend_short, crossing_of,
  market_structure_bullish,
}
use neuravex.Strategies.Momentum.{momentum, momentum_regimes, momentum_signal}
use neuravex.Strategies.Reversion.{mean_reversion, reversion_regimes, reversion_signal}
use neuravex.Strategies.Breakout.{breakout, breakout_regimes, breakout_signal}
use neuravex.Strategies.Gates.{Lawful, caps, signals-Lawful}
use neuravex.Risk.Plan.{build_risk_plan, long}
use neuravex.Decision.{
  Decision, ScoreRequest, buy, decide_on, score_signals, relevant, veto, average_confidence,
  net_edge, breakdown, majority,
}
use neuravex.Strategies.Regimes.{engine_strategies, signals_of, score_signals-NoBuyInBear}
use neuravex.Agent.{Candle}
use neuravex.Backtest.{BacktestRequest, BacktestResult}
use neuravex.Backtest.Engine.{
  bar, bars, closed, decide, enter, enter_for, hit_stop, hit_target, manage, measured, opened,
  opposite, plan_at, result_of, run_backtest, settle, sized, traded,
}
use neuravex.Market.Numpy.{max?, min?}
use neuravex.Market.Indicators.{atr, true_ranges, adx, true_range, ema, ema_from}
use neuravex.Prelude.Dict.{get}
use mathlib.Core.Option
use neuravex.Risk.Sizing.{
  calculate_position_size, wanted_risk, stop_distance, wanted_notional, position_cap, exposure_room,
}
use neuravex.Backtest.Ledger.{IsAudited, run_backtest-IsAudited}
use neuravex.Backtest.Lookahead.{IsContinued, run_backtest-NoLookahead}
use neuravex.Tests.Trading.{numpy, number, reading, request, signal}

abbrev candle : ℕ → ℕ → Candle Fixed
candle t price = record {
  open_time = t;
  high = number (add_ℕ price 2);
  low = number (monus price 2);
  close = number price;
  volume = number 5;
}

abbrev candles : List (Candle Fixed)
candles = candle 0 100 ∷ candle 1 101 ∷ candle 2 120 ∷ []

abbrev settings : BacktestRequest Fixed
settings = record {
  symbol = "A/USDC";
  strategies = (λ symbol d regime. some (signal long)) ∷ [];
  starting_equity = number 1_000;
  max_trade_risk = lit 1 2;
  max_position_size = lit 2 1;
  minimum_confidence = lit 5 1;
  minimum_expected_edge = lit 0 0;
  fee_rate = lit 1 3;
  slippage_bps = number 5;
  spot_only = true;
  warmup_bars = 1;
}

abbrev blank : BacktestResult Fixed
blank = record {
  trades = [];
  equity_curve = [];
  final_equity = number 0;
  max_drawdown = number 0;
  win_rate = number 0;
  total_return = number 0;
}

abbrev result : List (Candle Fixed) → BacktestResult Fixed
result cs = or_else (run_backtest numpy settings cs) blank

abbrev more : List (Candle Fixed)
more = candle 3 110 ∷ []

-- The position of the second bar is sold in the third, at its target.
ran :
    (run_backtest numpy settings candles ≡ some (result candles))
    × (run_backtest numpy settings (candles ++ more) ≡ some (result (candles ++ more)))
    × (length (result candles).trades ≡ 1)
unfolding run_backtest bars bar decide plan_at enter opened sized manage hit_stop hit_target
    opposite closed settle measured traded result_of score_signals signals_of relevant veto
    average_confidence net_edge breakdown majority detect_regime get atr true_ranges true_range ema
    ema_from build_risk_plan calculate_position_size wanted_risk stop_distance wanted_notional
    position_cap exposure_room enter_for Option.bind
ran = (refl, refl, refl)

run_backtest-IsAudited_example : IsAudited numpy settings 3 (result candles)
run_backtest-IsAudited_example =
    run_backtest-IsAudited numpy settings candles {result = result candles} (omega arith) ran.0

run_backtest-NoLookahead_example : IsContinued (result candles) (result (candles ++ more))
run_backtest-NoLookahead_example =
    run_backtest-NoLookahead numpy settings candles more {past = result candles}
      {future = result (candles ++ more)} (omega arith) ran.0 ran.1

-- n prices that fall to 100.
abbrev falling : ℕ → List Fixed
falling zero = []
falling (suc n) = number (add_ℕ 100 n) ∷ falling n

abbrev fall : Ohlcv Fixed
fall = record { high = falling 60; low = falling 60; close = falling 60; volume = falling 60 }

abbrev bears : RegimeReading Fixed
bears = record reading { market_regime = bear }

signals-Lawful_example :
    Lawful Fixed-IsIeee trend_regimes 55
      (caps Fixed-IsIeee (lit 95 2) (lit 90 2))
      "A"
      fall
      bears
      (trend_signal numpy trend_following "A" fall bears)
    × Lawful Fixed-IsIeee momentum_regimes 40
        (caps Fixed-IsIeee (lit 92 2) (lit 88 2))
        "A"
        fall
        bears
        (momentum_signal numpy momentum "A" fall bears)
    × Lawful Fixed-IsIeee reversion_regimes 25
        (caps Fixed-IsIeee (lit 90 2) (lit 88 2))
        "A"
        fall
        bears
        (reversion_signal numpy mean_reversion "A" fall bears)
    × Lawful Fixed-IsIeee breakout_regimes 40
        (caps Fixed-IsIeee (lit 90 2) (lit 85 2))
        "A"
        fall
        bears
        (breakout_signal numpy breakout "A" fall bears)
signals-Lawful_example =
    signals-Lawful Fixed-IsIeee numpy "A" fall bears trend_following momentum mean_reversion
      breakout

abbrev in_bear : ScoreRequest Fixed
in_bear = record (request []) {
  signals = signals_of (engine_strategies numpy) "A" fall bears;
  regime = bears;
}

-- The decision on sixty falling prices: a sale, on the signal of the trend.
abbrev falls : Decision Fixed
falls = or_else (score_signals in_bear) (decide_on in_bear none)

score_signals-NoBuyInBear_example : falls.action ≢ buy
unfolding score_signals relevant veto average_confidence net_edge breakdown majority get signals_of
    engine_strategies trend_signal trend_choice trend_short crossing_of ema ema_from adx
    market_structure_bullish is_regime_allowed max? min? momentum_signal reversion_signal
    breakout_signal
score_signals-NoBuyInBear_example =
    score_signals-NoBuyInBear numpy "A" fall bears in_bear {decision = falls} (inl refl) refl refl
