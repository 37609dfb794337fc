-- ===== src/Agent/Process.antt =====
-- `_process_symbol`: from the candles of one symbol to what is done about its decision.
use Prim.Native.Nat.{◌/◌ as div_ℕ}
use neuravex.Prelude.{
  ℕ, String, Bool, true, false, not, ◌&&◌, Option, none, some, List, [], ◌∷◌, ◌++◌, map, foldl, ltb,
  leb, any, length, keep, last?, take_last, str_eq, if◌then◌else◌, or_else, later,
}
use neuravex.Prelude.Dict.{Dict, get, contains}
use neuravex.Float.{Float, ◌>◌, of_ℕ, max}
use neuravex.Market.Regime.{RegimeReading, detect_regime}
use neuravex.Risk.Plan.{Direction, flat}
use neuravex.Risk.Limits.{PortfolioState}
use neuravex.Strategies.Signal.{Ohlcv, StrategySignal}
use neuravex.Decision.{Decision, Action, no_trade, ScoreRequest, score_signals}
use neuravex.Decision.Reasons.{Reason, already_traded, own_exit}
use neuravex.Agent.{
  AgentConfig, Candle, World, Agent, Outcome, value, raised, timeframe_seconds, emit, signal_saved,
}
use neuravex.Agent.Entry.{
  Setup, Plan, refuse, close_held, enter, failed, at_end, counted_candles, plan_for,
}
use neuravex.Agent.Orders.{argue_for, close_position, enter_position}

-- `None`, a decision, or an exception.
pub data Processed (F : Type 0) : Type 0 where
  nothing : Processed F
  decided : Decision F → Processed F
  exception : Processed F

abbrev pub is_no_trade : Action → Bool
is_no_trade no_trade = true
is_no_trade _ = false

abbrev without : String → List String → List String
without symbol names = keep (λ n. not (str_eq n symbol)) names

module _ {F : Type 0} where
  -- The decision turned into NO_TRADE for a reason.
  abbrev pub refused : Reason F → Decision F → Decision F
  refused reason d = record d {
    action = no_trade;
    reasons_against = d.reasons_against ++ reason ∷ [];
  }

  -- periods_per_year and crash_window, where the timeframe is known.
  unfoldable pub regime_params : AgentConfig F → Option (ℕ × ℕ)
  regime_params cfg =
      if cfg.timeframe_aware_regime
      then elim (timeframe_seconds cfg) [
        | none ↦ none
        | some seconds ↦ some (div_ℕ 31_536_000 seconds, div_ℕ 86_400 seconds)
      ]
      else some (8_760, 24)

  -- The close time of a candle; `none` is the ValueError of an unknown timeframe.
  unfoldable pub candle_close_time : AgentConfig F → Option (Candle F) → Option ℕ
  candle_close_time cfg none = none
  candle_close_time cfg (some c) = elim (timeframe_seconds cfg) [
    | none ↦ none
    | some seconds ↦ some (later c.open_time seconds)
  ]

  abbrev ohlcv_of : List (Candle F) → Ohlcv F
  ohlcv_of cs = record {
    high = map (λ c. c.high) cs;
    low = map (λ c. c.low) cs;
    close = map (λ c. c.close) cs;
    volume = map (λ c. c.volume) cs;
  }

  -- The symbol's place among the quiet ones; `none` is the exception of an unknown timeframe.
  unfoldable pub quiet_after :
      World F → AgentConfig F → String → Option (Candle F) → Agent F → Option (Agent F)
  unfolding candle_close_time
  quiet_after w cfg symbol candle a = elim cfg.analysis_log_window_seconds [
    | none ↦ some (record a { quiet_symbols = without symbol a.quiet_symbols })
    | some window ↦ elim (candle_close_time cfg candle) [
      | none ↦ none
      | some closed ↦ some (record a {
        quiet_symbols =
            if ltb (later closed window) (w.clock a.history)
            then symbol ∷ without symbol a.quiet_symbols
            else without symbol a.quiet_symbols;
      })
    ]
  ]

  abbrev pub is_quiet : String → Agent F → Bool
  is_quiet symbol a = any (str_eq symbol) a.quiet_symbols

  -- The signals of the strategies, in order, each saved unless the symbol is quiet.
  unfoldable pub gather_signals :
      List (String → Ohlcv F → RegimeReading F → Option (StrategySignal F))
      → Setup F
      → Agent F
      → List (StrategySignal F) × Agent F
  gather_signals [] s a = ([], a)
  gather_signals (strategy ∷ rest) s a = elim (strategy s.symbol s.ohlcv s.regime) [
    | none ↦ gather_signals rest s a
    | some signal ↦
        let later =
          gather_signals rest s (if is_quiet s.symbol a then a else emit (signal_saved signal) a) in
        (signal ∷ later.0, later.1)
  ]

module _ {F : Type 0} ⦃fl : Float F⦄ where
  -- max((corr for other, corr in correlated.items() if other in open_positions), default=0.0)
  abbrev held_correlations : PortfolioState F → Dict F → List F
  held_correlations s correlated =
      map (λ e. e.1) (keep (λ e. contains e.0 s.open_positions) correlated)

  worst_correlation : List F → F
  worst_correlation [] = of_ℕ 0
  worst_correlation (c ∷ cs) = foldl max c cs

  module _ (w : World F) (cfg : AgentConfig F) where
    score_request : Setup F → Agent F → List (StrategySignal F) → ScoreRequest F
    unfolding worst_correlation
    score_request s a signals = record {
      symbol = s.symbol;
      signals = signals;
      regime = s.regime;
      strategy_performance = w.strategy_performance;
      volume_confirmation_score =
          if at_end s.ohlcv.volume > w.numpy.mean (take_last 20 s.ohlcv.volume)
          then of_ℕ 1
          else of_ℕ 0;
      correlation_penalty = worst_correlation (held_correlations a.state s.correlated);
      estimated_transaction_cost =
          or_else (get s.symbol cfg.round_trip_cost_by_symbol) cfg.estimated_transaction_cost;
      minimum_confidence = cfg.minimum_confidence;
      minimum_expected_edge = cfg.minimum_expected_edge;
    }

    -- The gate of one trade per candle: the close time, if there was a trade since then.
    traded_since : Setup F → Agent F → Option ℕ → Option ℕ
    traded_since s a none = none
    traded_since s a (some closed) = elim (get s.symbol a.state.last_signal_time_by_symbol) [
      | none ↦ none
      | some t ↦ if leb closed t then some closed else none
    ]

    abbrev pub processed : Outcome (Decision F) × Agent F → Processed F × Agent F
    processed (value d, a) = (decided d, a)
    processed (raised d, a) = (exception, a)

    -- What is done about a plan.
    unfoldable pub carry_out :
        Setup F → Direction → Decision F → Plan F × Agent F → Processed F × Agent F
    carry_out s direction d (refuse reason, a) = (decided (refused reason d), a)
    carry_out s direction d (failed, a) = (exception, a)
    carry_out s direction d (close_held quantity, a) =
        processed (close_position w cfg s.symbol quantity (argue_for (own_exit quantity) d) false a)
    carry_out s direction d (enter p size, a) =
        processed (enter_position w cfg s.symbol direction p size s.price d a)

    -- A decision that is not NO_TRADE yet.
    unfoldable pub act_on : Setup F → Decision F → Agent F → Option ℕ → Processed F × Agent F
    unfolding carry_out
    act_on s d a (some closed) = (decided (refused (already_traded closed) d), a)
    act_on s d a none =
        let direction = or_else d.direction flat in
        carry_out s direction d (plan_for w cfg s d direction a)

    unfoldable pub decide :
        Setup F → Option ℕ → Agent F → Option (Decision F) → Processed F × Agent F
    unfolding act_on traded_since
    decide s closed a none = (exception, a)
    decide s closed a (some scored) =
        let d = record scored { entry_regime = some s.regime.market_regime } in
        if is_no_trade d.action
        then (decided d, a)
        else act_on s d a (
            if cfg.one_trade_per_candle && cfg.closed_candles_only
            then traded_since s a closed
            else none)

    -- From the market data on; `none` is the exception of an unknown timeframe.
    unfoldable pub analyse :
        Setup F → Option (Candle F) → Agent F → Option (Agent F) → Processed F × Agent F
    unfolding decide score_request candle_close_time
    analyse s last before none = (exception, before)
    analyse s last before (some a) =
        let gathered = gather_signals w.strategies s a in
        decide s (candle_close_time cfg last) gathered.1
          (score_signals (score_request s gathered.1 gathered.0))

    unfoldable pub with_candles :
        String → F → Agent F → Option (List (Candle F)) → Processed F × Agent F
    unfolding analyse regime_params quiet_after
    with_candles symbol price a none = (exception, a)
    with_candles symbol price a (some cs) =
        if ltb (length cs) 60 then (nothing, a) else elim (regime_params cfg) [
          | none ↦ (exception, a)
          | some params ↦
              analyse
                (record {
                  symbol = symbol;
                  ohlcv = ohlcv_of cs;
                  regime =
                      detect_regime w.numpy params.0 params.1 (map (λ c. c.high) cs)
                        (map (λ c. c.low) cs) (map (λ c. c.close) cs);
                  price = price;
                  correlated = or_else (get symbol w.correlation_matrix) [];
                })
                (last? cs) a (quiet_after w cfg symbol (last? cs) a)
        ]

    unfoldable pub fetched_candles :
        String → Agent F → Option (List (Candle F)) → Processed F × Agent F
    unfolding with_candles
    fetched_candles symbol a none = (exception, a)
    fetched_candles symbol a (some cs) = elim (last? cs) [
      | none ↦ (nothing, a)
      | some c ↦ with_candles symbol c.close a (counted_candles w cfg a.history cs)
    ]

    -- `_process_symbol`
    unfoldable pub process_symbol : String → Agent F → Processed F × Agent F
    unfolding fetched_candles
    process_symbol symbol a = fetched_candles symbol a (w.get_candles a.history symbol)
