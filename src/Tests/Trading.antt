-- ===== src/Tests/Trading.antt =====
-- The decision engine, the supervisor and the small modules at concrete numbers.
use neuravex.Prelude.{ℕ, ◌≡◌, refl, ◌↔◌, true, false, not, none, some, List, [], ◌∷◌, keep}
use neuravex.Prelude.Dict.{get}
use neuravex.Float.{◌≼◌, lit, of_ℕ, neg}
use neuravex.Float.Fixed.{Fixed, Fixed-IsIeee, fixed_float}
use neuravex.Market.Numpy.{Numpy}
use neuravex.Market.Regime.{RegimeReading, strong_bull, low, detect_regime}
use neuravex.Market.Regime.Classes.{IsCoherent, detect_regime-IsCoherent}
use neuravex.Risk.Plan.{Direction, long, short, flat}
use neuravex.Strategies.Signal.{StrategySignal}
use neuravex.Decision.{
  Decision, ScoreRequest, score_signals, majority, action_of, decide_on, veto, breakdown, relevant,
  average_confidence, net_edge,
}
use neuravex.Decision.Scoring.{is_trade, IsTradable, score_signals_trades}
use neuravex.Supervisor.{ClosedTrade, allows, evaluate_supervisor, is_recent, losing, sort_by_time}
use neuravex.Supervisor.Verdict.{allows_exact, results}
use neuravex.Execution.Monitor.{
  Monitored, evaluate_position, evaluate_position-Tightens, stop_after,
}

abbrev pub number : ℕ → Fixed
number n = of_ℕ n

-- A stand-in for numpy.
abbrev pub numpy : Numpy Fixed
numpy = record {
  mean = λ xs. of_ℕ 1;
  std = λ xs. of_ℕ 1;
  sample_std = λ xs. of_ℕ 1;
  log = λ x. x;
  sqrt = λ x. x;
  convolve = λ xs ys. xs;
}

abbrev twenty : List Fixed
twenty =
    let x = number 10 in
    x ∷ x ∷ x ∷ x ∷ x ∷ x ∷ x ∷ x ∷ x ∷ x ∷ x ∷ x ∷ x ∷ x ∷ x ∷ x ∷ x ∷ x ∷ x ∷ number 8 ∷ []

detect_regime-IsCoherent_example : IsCoherent (detect_regime numpy 8_760 24 twenty twenty twenty)
detect_regime-IsCoherent_example = detect_regime-IsCoherent numpy 8_760 24 twenty twenty twenty

abbrev pub reading : RegimeReading Fixed
reading = record {
  market_regime = strong_bull;
  volatility_regime = low;
  trend_strength = number 40;
  realized_volatility = lit 3 1;
  drawdown_from_high = number 0;
}

abbrev pub signal : Direction → StrategySignal Fixed
signal d = record {
  symbol = "A/USDC";
  direction = d;
  confidence = lit 8 1;
  expected_return = lit 2 2;
  risk = lit 1 2;
  time_horizon = "hours";
  strategy_name = "breakout";
}

abbrev pub request : List (StrategySignal Fixed) → ScoreRequest Fixed
request signals = record {
  symbol = "A/USDC";
  signals = signals;
  regime = reading;
  strategy_performance = [];
  volume_confirmation_score = number 1;
  correlation_penalty = number 0;
  estimated_transaction_cost = lit 3 3;
  minimum_confidence = lit 7 1;
  minimum_expected_edge = lit 3 3;
}

abbrev two_longs : ScoreRequest Fixed
two_longs = request (signal long ∷ signal short ∷ signal long ∷ [])

abbrev only_flat : ScoreRequest Fixed
only_flat = request (signal flat ∷ [])

-- The decision of the run on two LONG signals and a SHORT one.
abbrev decision : Decision Fixed
decision = decide_on two_longs none

score_signals_trades_example :
    ((is_trade decision.action ≡ true) ↔ IsTradable two_longs)
    × (is_trade decision.action ≡ true → decision.action ≡ action_of (majority two_longs))
unfolding score_signals veto breakdown relevant average_confidence net_edge majority get
score_signals_trades_example = score_signals_trades two_longs {d = decision} refl

-- A run that raises: one FLAT signal.
score_signals-flat_test : score_signals only_flat ≡ none
unfolding score_signals relevant
score_signals-flat_test = refl

abbrev loss : ℕ → ClosedTrade Fixed
loss t = record {
  closed_at = t;
  pnl = neg (number 5);
  strategies = "breakout" ∷ "momentum" ∷ [];
  regime = some "BULL";
}

abbrev losses : List (ClosedTrade Fixed)
losses = loss 5_000_003 ∷ loss 5_000_001 ∷ loss 5_000_002 ∷ loss 5_000_004 ∷ []

allows_exact_example :
    allows (evaluate_supervisor losses 6_000_000) "breakout" "BULL"
    ≡ not (losing (results ("breakout", "BULL") (sort_by_time (keep (is_recent 6_000_000) losses))))
allows_exact_example = allows_exact losses 6_000_000 "breakout" "BULL"

abbrev monitored : Monitored Fixed
monitored = record {
  direction = long;
  entry = number 100;
  current_price = number 110;
  current_stop = number 97;
  take_profit_1 = number 120;
  trailing_distance = number 3;
  tp1_hit = false;
}

evaluate_position-Tightens_example : number 97 ≼ stop_after monitored (evaluate_position monitored)
evaluate_position-Tightens_example = evaluate_position-Tightens Fixed-IsIeee monitored refl
