-- ===== src/Market/Regime.antt =====
-- trading_engine/regime/regime_detector.py
pub mod Classes
use neuravex.Prelude.{
  ℕ, Bool, true, false, not, ◌&&◌, List, ltb, leb, length, take_last, if◌then◌else◌, last?, or_else,
}
use neuravex.Float.{Float, ◌-◌, ◌/◌, ◌<◌, ◌>◌, ◌>=◌, lit, of_ℕ, truthy}
use neuravex.Market.Numpy.{Numpy, max?}
use neuravex.Market.Indicators.{ema, adx, realized_vol}

pub data MarketRegime : Type 0 where
  strong_bull bull sideways bear high_volatility crash : MarketRegime

pub data VolatilityRegime : Type 0 where
  low normal high extreme : VolatilityRegime

pub record RegimeReading (F : Type 0) : Type 0 where
  pub market_regime : MarketRegime
  pub volatility_regime : VolatilityRegime
  pub trend_strength : F
  pub realized_volatility : F
  pub drawdown_from_high : F

abbrev is_extreme : VolatilityRegime → Bool
is_extreme extreme = true
is_extreme _ = false

module _ {F : Type 0} ⦃fl : Float F⦄ where
  -- The thresholds (0.4, 0.8, 1.5) on the annualised volatility.
  unfoldable pub volatility_class : F → VolatilityRegime
  volatility_class vol =
      if vol < lit 4 1
      then low
      else if vol < lit 8 1
      then normal
      else if vol < lit 15 1
      then high
      else extreme

  -- The ladder of `market_regime`, in the order of the code.
  unfoldable pub market_class : F → VolatilityRegime → Bool → F → F → MarketRegime
  market_class drawdown volatility trend_up adx_value trend_pct =
      if drawdown >= lit 15 2
      then crash
      else if is_extreme volatility
      then high_volatility
      else if trend_up && (adx_value >= of_ℕ 35) && (trend_pct > lit 3 2)
      then strong_bull
      else if trend_up && (adx_value >= of_ℕ 20)
      then bull
      else if not trend_up && (adx_value >= of_ℕ 20)
      then bear
      else sideways

  -- (high - now) / high, and 0.0 for a high of zero.
  abbrev drawdown_from : F → F → F
  drawdown_from top now = if truthy top then (top - now) / top else of_ℕ 0

  -- A reading from the computed volatility, drawdown and trend.
  pub classify : F → F → Bool → F → F → RegimeReading F
  unfolding volatility_class market_class
  classify vol drawdown trend_up strength trend_pct =
      let volatility = volatility_class vol in
      record {
        market_regime = market_class drawdown volatility trend_up strength trend_pct;
        volatility_regime = volatility;
        trend_strength = strength;
        realized_volatility = vol;
        drawdown_from_high = drawdown;
      }

  module _ (np : Numpy F) (periods_per_year crash_window : ℕ) where
    -- `vol_window` is 30 and the thresholds are the defaults: no caller passes others. The last
    -- entries exist, since the series has at least 20.
    unfoldable pub detect_regime : List F → List F → List F → RegimeReading F
    unfolding classify
    detect_regime highs lows close =
        if ltb (length close) 20
        then record {
          market_regime = sideways;
          volatility_regime = normal;
          trend_strength = of_ℕ 0;
          realized_volatility = of_ℕ 0;
          drawdown_from_high = of_ℕ 0;
        }
        else classify vol drawdown (fast > slow) (adx highs lows close 14)
            (if truthy slow then (fast - slow) / slow else of_ℕ 0)
      where
        at_end : List F → F
        at_end xs = or_else (last? xs) fl.nan

        vol : F
        vol =
            realized_vol np (if ltb 30 (length close) then take_last 30 close else close)
              periods_per_year

        fast : F
        fast = at_end (ema close 20)

        slow : F
        slow =
            if leb 50 (length close)
            then at_end (ema close 50)
            else at_end (ema close (length close))

        drawdown : F
        drawdown =
            drawdown_from (or_else (max? (take_last crash_window close)) fl.nan) (at_end close)
