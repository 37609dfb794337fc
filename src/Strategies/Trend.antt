-- ===== src/Strategies/Trend.antt =====
-- trading_engine/strategies/trend_following.py. The arrays of an OHLCV have one length.
use Prim.Native.Nat.{◌+◌ as add_ℕ, ◌/◌ as div_ℕ}
use neuravex.Prelude.{
  ℕ, String, Bool, false, not, ◌&&◌, ◌||◌, Option, none, some, List, [], ◌∷◌, ltb, length, take,
  drop, take_last, if◌then◌else◌,
}
use neuravex.Float.{Float, ◌+◌, ◌-◌, ◌*◌, ◌/◌, ◌<◌, ◌<=◌, ◌>◌, ◌>=◌, lit, of_ℕ, min}
use neuravex.Market.Numpy.{Numpy, zip_with}
use neuravex.Market.Indicators.{ema, adx}
use neuravex.Market.Regime.{MarketRegime, RegimeReading, strong_bull, bull, bear}
use neuravex.Risk.Plan.{long, short}
use neuravex.Strategies.Arrays.{latest, latest_but_one, largest, smallest, risk_or}
use neuravex.Strategies.Signal.{Ohlcv, StrategySignal, same_regime, is_regime_allowed}

pub record TrendFollowing (F : Type 0) : Type 0 where
  pub fast : ℕ
  pub slow : ℕ
  pub adx_threshold : F

abbrev pub trend_regimes : List MarketRegime
trend_regimes = strong_bull ∷ bull ∷ bear ∷ []

-- What `generate_signal` reads off the two averages.
pub record Crossing : Type 0 where
  pub crossed_up : Bool
  pub crossed_down : Bool
  pub trending_up : Bool
  pub trending_down : Bool

module _ {F : Type 0} ⦃fl : Float F⦄ where
  -- `TrendFollowingStrategy()`
  abbrev pub trend_following : TrendFollowing F
  trend_following = record { fast = 20; slow = 50; adx_threshold = of_ℕ 20 }

  unfoldable pub market_structure_bullish : List F → List F → ℕ → Bool
  market_structure_bullish high low lookback =
      let h = take_last lookback high in
      let l = take_last lookback low in
      let mid = div_ℕ lookback 2 in
      if ltb (length high) (add_ℕ lookback 2)
      then false
      else (largest (drop mid h) > largest (take mid h))
        && (smallest (drop mid l) > smallest (take mid l))

  unfoldable pub crossing_of : List F → List F → Crossing
  crossing_of fast slow = record {
    crossed_up = (latest_but_one fast <= latest_but_one slow) && (latest fast > latest slow);
    crossed_down = (latest_but_one fast >= latest_but_one slow) && (latest fast < latest slow);
    trending_up = latest fast > latest slow;
    trending_down = latest fast < latest slow;
  }

  module _ (np : Numpy F) (strategy : TrendFollowing F) where
    abbrev pub recent_range : Ohlcv F → F
    recent_range d = np.mean (zip_with ◌-◌ (take_last 14 d.high) (take_last 14 d.low))

    unfoldable pub trend_long : String → Ohlcv F → F → Bool → StrategySignal F
    trend_long symbol d adx_value crossed =
        let risk = risk_or (lit 2 2) (recent_range d) (latest d.close) in
        record {
          symbol = symbol;
          direction = long;
          confidence =
              min (lit 95 2)
                (lit 5 1 + adx_value / of_ℕ 100 + (if crossed then lit 15 2 else of_ℕ 0));
          expected_return = risk * of_ℕ 2;
          risk = risk;
          time_horizon = "4h";
          strategy_name = "trend_following_ema_adx";
        }

    unfoldable pub trend_short : String → Ohlcv F → F → Bool → StrategySignal F
    trend_short symbol d adx_value crossed =
        let risk = risk_or (lit 2 2) (recent_range d) (latest d.close) in
        record {
          symbol = symbol;
          direction = short;
          confidence =
              min (lit 90 2)
                (lit 45 2 + adx_value / of_ℕ 100 + (if crossed then lit 15 2 else of_ℕ 0));
          expected_return = risk * lit 18 1;
          risk = risk;
          time_horizon = "4h";
          strategy_name = "trend_following_ema_adx";
        }

    -- The choice, from the crossing, the ADX and the structure.
    unfoldable pub trend_choice :
        String → Ohlcv F → RegimeReading F → Crossing → F → Bool → Option (StrategySignal F)
    unfolding trend_long trend_short
    trend_choice symbol d regime c adx_value structure_bullish =
        if adx_value < strategy.adx_threshold
        then none
        else if (c.crossed_up || c.trending_up)
            && structure_bullish
            && not (same_regime regime.market_regime bear)
        then some (trend_long symbol d adx_value c.crossed_up)
        else if (c.crossed_down || c.trending_down) && not structure_bullish
        then some (trend_short symbol d adx_value c.crossed_down)
        else none

    unfoldable pub trend_signal : String → Ohlcv F → RegimeReading F → Option (StrategySignal F)
    unfolding trend_choice
    trend_signal symbol d regime =
        if not (is_regime_allowed trend_regimes regime)
        then none
        else if ltb (length d.close) (add_ℕ strategy.slow 5)
        then none
        else trend_choice symbol d regime
            (crossing_of (ema d.close strategy.fast) (ema d.close strategy.slow))
            (adx d.high d.low d.close 14) (market_structure_bullish d.high d.low 20)
