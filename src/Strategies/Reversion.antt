-- ===== src/Strategies/Reversion.antt =====
-- trading_engine/strategies/mean_reversion.py. The arrays of an OHLCV have one length, and the closing
-- price that is divided by is not zero: Python raises there.
use Prim.Native.Nat.{◌+◌ as add_ℕ}
use neuravex.Prelude.{
  ℕ, String, Bool, true, false, not, ◌&&◌, Option, none, some, List, [], ◌∷◌, ltb, length,
  if◌then◌else◌,
}
use neuravex.Float.{
  Float, ◌+◌, ◌-◌, ◌*◌, ◌/◌, ◌<◌, ◌<=◌, ◌>◌, ◌>=◌, ◌==◌, lit, of_ℕ, neg, abs, min, max,
}
use neuravex.Market.Numpy.{Numpy}
use neuravex.Market.Indicators.{atr, bollinger_bands, z_score}
use neuravex.Market.Regime.{MarketRegime, VolatilityRegime, RegimeReading, sideways, high, extreme}
use neuravex.Risk.Plan.{Direction, long, short}
use neuravex.Strategies.Arrays.{latest, risk_or}
use neuravex.Strategies.Signal.{Ohlcv, StrategySignal, is_regime_allowed}

pub record MeanReversion (F : Type 0) : Type 0 where
  pub period : ℕ
  pub num_std : F
  pub z_entry : F

-- What `generate_signal` computes before it decides.
pub record ReversionView (F : Type 0) : Type 0 where
  pub upper : F
  pub mid : F
  pub lower : F
  pub current_z : F
  pub price : F
  pub risk : F

abbrev pub reversion_regimes : List MarketRegime
reversion_regimes = sideways ∷ []

-- `volatility_regime.value in ("high", "extreme")`
abbrev pub is_wild : VolatilityRegime → Bool
is_wild high = true
is_wild extreme = true
is_wild _ = false

module _ {F : Type 0} ⦃fl : Float F⦄ where
  -- `MeanReversionStrategy()`
  abbrev pub mean_reversion : MeanReversion F
  mean_reversion = record { period = 20; num_std = of_ℕ 2; z_entry = of_ℕ 2 }

  module _ (np : Numpy F) (strategy : MeanReversion F) where
    unfoldable pub reversion_view : Ohlcv F → ReversionView F
    reversion_view d =
        let bands = bollinger_bands np d.close strategy.period strategy.num_std in
        let z = latest (z_score np d.close strategy.period) in
        record {
          upper = latest bands.upper;
          mid = latest bands.mid;
          lower = latest bands.lower;
          current_z = if z == z then z else of_ℕ 0;
          price = latest d.close;
          risk = risk_or (lit 15 3) (latest (atr d.high d.low d.close 14)) (latest d.close);
        }

    abbrev pub reversion_of : String → Direction → ReversionView F → F → F → F → StrategySignal F
    reversion_of symbol direction v cap excess distance = record {
      symbol = symbol;
      direction = direction;
      confidence = min cap (lit 55 2 + lit 8 2 * excess);
      expected_return = max (abs distance / v.price) (v.risk * lit 12 1);
      risk = v.risk;
      time_horizon = "1h";
      strategy_name = "mean_reversion_bollinger_zscore";
    }

    unfoldable pub reversion_choice : String → ReversionView F → Option (StrategySignal F)
    reversion_choice symbol v =
        if (v.current_z <= neg strategy.z_entry) && (v.price < v.lower)
        then some (
            reversion_of symbol long v (lit 90 2) (abs v.current_z - strategy.z_entry)
              (v.mid - v.price))
        else if (v.current_z >= strategy.z_entry) && (v.price > v.upper)
        then some (
            reversion_of symbol short v (lit 88 2) (v.current_z - strategy.z_entry)
              (v.price - v.mid))
        else none

    unfoldable pub reversion_signal : String → Ohlcv F → RegimeReading F → Option (StrategySignal F)
    unfolding reversion_choice
    reversion_signal symbol d regime =
        if not (is_regime_allowed reversion_regimes regime)
        then none
        else if ltb (length d.close) (add_ℕ strategy.period 5)
        then none
        else if is_wild regime.volatility_regime
        then none
        else reversion_choice symbol (reversion_view d)
