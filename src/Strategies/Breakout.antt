-- ===== src/Strategies/Breakout.antt =====
-- trading_engine/strategies/breakout.py. The arrays of an OHLCV have one length.
use Prim.Native.Nat.{◌+◌ as add_ℕ}
use neuravex.Prelude.{
  ℕ, String, Bool, not, ◌&&◌, Option, none, some, List, [], ◌∷◌, ltb, length, if◌then◌else◌,
}
use neuravex.Float.{Float, ◌+◌, ◌*◌, ◌<◌, ◌>◌, lit, of_ℕ, min}
use neuravex.Market.Numpy.{Numpy}
use neuravex.Market.Indicators.{atr}
use neuravex.Market.Regime.{
  MarketRegime, RegimeReading, strong_bull, bull, sideways, high_volatility, crash,
}
use neuravex.Risk.Plan.{Direction, long, short}
use neuravex.Strategies.Arrays.{before_last, slice_back, latest, largest, smallest, risk_or}
use neuravex.Strategies.Signal.{Ohlcv, StrategySignal, same_regime, is_regime_allowed}

pub record Breakout (F : Type 0) : Type 0 where
  pub lookback : ℕ
  pub volume_multiplier : F
  pub atr_expansion : F

-- What `generate_signal` computes before it decides.
pub record BreakoutView (F : Type 0) : Type 0 where
  pub resistance : F
  pub support : F
  pub price : F
  pub risk : F
  pub vol_expanding : Bool
  pub volume_confirmed : Bool

abbrev pub breakout_regimes : List MarketRegime
breakout_regimes = strong_bull ∷ bull ∷ sideways ∷ high_volatility ∷ []

module _ {F : Type 0} ⦃fl : Float F⦄ where
  -- `BreakoutStrategy()`
  abbrev pub breakout : Breakout F
  breakout = record { lookback = 20; volume_multiplier = lit 15 1; atr_expansion = lit 13 1 }

  module _ (np : Numpy F) (strategy : Breakout F) where
    -- The mean ATR of the twenty candles before the lookback.
    abbrev atr_baseline : List F → F
    atr_baseline series =
        let window = add_ℕ strategy.lookback 20 in
        if ltb window (length series)
        then np.mean (slice_back window strategy.lookback series)
        else latest series

    unfoldable pub breakout_view : Ohlcv F → BreakoutView F
    breakout_view d =
        let series = atr d.high d.low d.close 14 in
        let baseline = atr_baseline series in
        let volume = np.mean (before_last strategy.lookback d.volume) in
        record {
          resistance = largest (before_last strategy.lookback d.high);
          support = smallest (before_last strategy.lookback d.low);
          price = latest d.close;
          risk = risk_or (lit 2 2) (latest series) (latest d.close);
          vol_expanding =
              (baseline > of_ℕ 0) && (latest series > (strategy.atr_expansion * baseline));
          volume_confirmed =
              (volume > of_ℕ 0) && (latest d.volume > (strategy.volume_multiplier * volume));
        }

    unfoldable pub breakout_confidence : BreakoutView F → F
    breakout_confidence v =
        lit 55 2
        + (if v.vol_expanding then lit 15 2 else of_ℕ 0)
        + (if v.volume_confirmed then lit 15 2 else of_ℕ 0)

    abbrev pub breakout_of : String → Direction → BreakoutView F → F → F → StrategySignal F
    breakout_of symbol direction v cap reward = record {
      symbol = symbol;
      direction = direction;
      confidence = min (breakout_confidence v) cap;
      expected_return = v.risk * reward;
      risk = v.risk;
      time_horizon = "4h";
      strategy_name = "breakout_sr_volume";
    }

    unfoldable pub breakout_choice : String → BreakoutView F → Option (StrategySignal F)
    unfolding breakout_confidence
    breakout_choice symbol v =
        if (v.price > v.resistance) && v.volume_confirmed && v.vol_expanding
        then some (breakout_of symbol long v (lit 90 2) (lit 22 1))
        else if (v.price < v.support) && v.volume_confirmed && v.vol_expanding
        then some (breakout_of symbol short v (lit 85 2) (of_ℕ 2))
        else none

    unfoldable pub breakout_signal : String → Ohlcv F → RegimeReading F → Option (StrategySignal F)
    unfolding breakout_choice
    breakout_signal symbol d regime =
        if not (is_regime_allowed breakout_regimes regime)
        then none
        else if ltb (length d.close) (add_ℕ strategy.lookback 20)
        then none
        else if same_regime regime.market_regime crash
        then none
        else breakout_choice symbol (breakout_view d)
