-- ===== src/Strategies/Regimes.antt =====
-- The strategies that backend/app/core/tasks.py gives to the agent, and what their regimes mean for the
-- decision that is made of their signals.
use neuravex.Prelude.{
  if◌then◌else◌, String, ◌≡◌, ◌≢◌, refl, ◌⊎◌, inl, inr, Option, none, some, List, [], ◌∷◌,
  Bool-cases, ap, not, ◌||◌, ltb, sym, false≢true, ◌∙◌, Bool, true, false, ◌&&◌, length, prepend,
}
use neuravex.Float.{Float, ◌<◌, of_ℕ}
use neuravex.Market.Numpy.{Numpy}
use neuravex.Market.Indicators.{ema, adx}
use neuravex.Market.Regime.{RegimeReading, bear, crash}
use neuravex.Risk.Plan.{short}
use neuravex.Strategies.Signal.{Ohlcv, StrategySignal, is_regime_allowed}
use neuravex.Strategies.Trend.{
  trend_following, trend_regimes, trend_signal, trend_choice, trend_short, crossing_of, Crossing,
  market_structure_bullish,
}
use neuravex.Strategies.Momentum.{momentum, momentum_signal}
use neuravex.Strategies.Reversion.{mean_reversion, reversion_signal}
use neuravex.Strategies.Breakout.{breakout, breakout_signal}
use neuravex.Decision.{Decision, ScoreRequest, buy, score_signals, majority, action_of, is_empty}
use neuravex.Decision.Scoring.{score_signals_trades}

-- `Strategy.generate_signal`
abbrev pub GenerateSignal : Type 0 → Type 0
GenerateSignal F = String → Ohlcv F → RegimeReading F → Option (StrategySignal F)

module _ {F : Type 0} where
  -- `[s for s in (strat.generate_signal(...) for strat in strategies) if s]`
  unfoldable pub signals_of :
      List (GenerateSignal F) → String → Ohlcv F → RegimeReading F → List (StrategySignal F)
  signals_of [] symbol d regime = []
  signals_of (strategy ∷ rest) symbol d regime =
      prepend (strategy symbol d regime) (signals_of rest symbol d regime)

  -- No signal, or one that is SHORT.
  data OnlyShort (o : Option (StrategySignal F)) : Type 0 where
    silent : o ≡ none → OnlyShort o
    down : (s : StrategySignal F) → o ≡ some s → s.direction ≡ short → OnlyShort o

  OnlyShort-none : OnlyShort none
  OnlyShort-none = silent refl

  OnlyShort-if :
      (b : Bool) {x y : Option (StrategySignal F)}
      → OnlyShort x
      → OnlyShort y
      → OnlyShort (if b then x else y)
  OnlyShort-if true h k = h
  OnlyShort-if false h k = k

  OnlyShort-direction : {s : StrategySignal F} → OnlyShort (some s) → s.direction ≡ short
  OnlyShort-direction {s} (silent e) = cc
  OnlyShort-direction {s} (down t e k) = let same : t ≡ s = cc in rw (← same) k

  abbrev AtMostOneShort : List (StrategySignal F) → Type 0
  AtMostOneShort signals =
      (signals ≡ []) ⊎ ((s : StrategySignal F) × (signals ≡ s ∷ []) × (s.direction ≡ short))

  prepend-OnlyShort : (o : Option (StrategySignal F)) → OnlyShort o → AtMostOneShort (prepend o [])
  prepend-OnlyShort none h = inl refl
  prepend-OnlyShort (some s) h = inr (s, refl, OnlyShort-direction h)

and_false : (b : Bool) → (b && false) ≡ false
and_false true = refl
and_false false = refl

module _ {F : Type 0} ⦃fl : Float F⦄ (np : Numpy F) where
  unfoldable pub engine_strategies : List (GenerateSignal F)
  engine_strategies =
      trend_signal np trend_following
      ∷ momentum_signal np momentum
      ∷ reversion_signal np mean_reversion
      ∷ breakout_signal np breakout
      ∷ []

  module _ (symbol : String) (d : Ohlcv F) (regime : RegimeReading F) where
    trend_short-OnlyShort :
        (adx_value : F) (crossed : Bool)
        → OnlyShort (some (trend_short np trend_following symbol d adx_value crossed))
    unfolding trend_short
    trend_short-OnlyShort adx_value crossed = down _ refl refl

    trend_choice-OnlyShort :
        (c : Crossing) (adx_value : F) (bullish : Bool)
        → regime.market_regime ≡ bear
        → OnlyShort (trend_choice np trend_following symbol d regime c adx_value bullish)
    unfolding trend_choice
    trend_choice-OnlyShort c adx_value bullish e = elim (Bool-cases (adx_value < of_ℕ 20)) [
      | inl t ↦ rw t OnlyShort-none
      | inr t ↦
          rw (t, e, and_false)
            (OnlyShort-if ((c.crossed_down || c.trending_down) && not bullish)
              (trend_short-OnlyShort adx_value c.crossed_down) OnlyShort-none)
    ]

    trend-OnlyShort :
        regime.market_regime ≡ bear → OnlyShort (trend_signal np trend_following symbol d regime)
    unfolding trend_signal is_regime_allowed
    trend-OnlyShort e = OnlyShort-if (not (is_regime_allowed trend_regimes regime)) OnlyShort-none (
        OnlyShort-if (ltb (length d.close) 55) OnlyShort-none (
          trend_choice-OnlyShort (crossing_of (ema d.close 20) (ema d.close 50))
            (adx d.high d.low d.close 14) (market_structure_bullish d.high d.low 20) e))

    bear_rest :
        regime.market_regime ≡ bear
        → (momentum_signal np momentum symbol d regime ≡ none)
          × (reversion_signal np mean_reversion symbol d regime ≡ none)
          × (breakout_signal np breakout symbol d regime ≡ none)
    unfolding momentum_signal reversion_signal breakout_signal is_regime_allowed
    bear_rest e = rw e (refl, refl, refl)

    signals_of-crash :
        regime.market_regime ≡ crash → signals_of engine_strategies symbol d regime ≡ []
    unfolding signals_of engine_strategies trend_signal momentum_signal reversion_signal
        breakout_signal is_regime_allowed
    signals_of-crash e = rw e refl

    signals_of-bear :
        regime.market_regime ≡ bear → AtMostOneShort (signals_of engine_strategies symbol d regime)
    unfolding signals_of engine_strategies
    signals_of-bear e =
        let rest = bear_rest e in
        let alone : signals_of engine_strategies symbol d regime
            ≡ prepend (trend_signal np trend_following symbol d regime) [] =
          λ i.
            prepend (trend_signal np trend_following symbol d regime)
              (prepend (rest.0 i) (prepend (rest.1 i) (prepend (rest.2 i) []))) in
        rw alone (prepend-OnlyShort _ (trend-OnlyShort e))

  majority_short :
      (r : ScoreRequest F) {s : StrategySignal F}
      → r.signals ≡ s ∷ []
      → s.direction ≡ short
      → majority r ≡ short
  unfolding majority
  majority_short r h k = rw (h, k) refl

  -- Scoring nothing, or a single SHORT, is never a buy.
  score_signals-sells :
      (r : ScoreRequest F) {decision : Decision F}
      → AtMostOneShort r.signals
      → score_signals r ≡ some decision
      → decision.action ≢ buy
  score_signals-sells r (inl h) e b =
      let trades = score_signals_trades r e in
      let signal : is_empty r.signals ≡ false = (trades.0.0 (rw b refl)).some_signal in
      false≢true (sym signal ∙ rw h refl)
  score_signals-sells r (inr (s, h, k)) e b =
      let side = (score_signals_trades r e).1 (rw b refl) in
      let sold : buy ≡ action_of short = sym b ∙ side ∙ ap action_of (majority_short r h k) in cc

  -- In a BEAR market or in a CRASH a decision on the signals of the engine's four strategies is
  -- never a buy, whatever the candles and whatever else the decision is made from.
  pub score_signals-NoBuyInBear :
      (symbol : String) (d : Ohlcv F) (regime : RegimeReading F) (r : ScoreRequest F)
      {decision : Decision F}
      → (regime.market_regime ≡ bear) ⊎ (regime.market_regime ≡ crash)
      → r.signals ≡ signals_of engine_strategies symbol d regime
      → score_signals r ≡ some decision
      → decision.action ≢ buy
  score_signals-NoBuyInBear symbol d regime r (inl e) h =
      score_signals-sells r (rw h (signals_of-bear symbol d regime e))
  score_signals-NoBuyInBear symbol d regime r (inr e) h =
      score_signals-sells r (inl (h ∙ signals_of-crash symbol d regime e))
