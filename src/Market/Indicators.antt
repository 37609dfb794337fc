-- ===== src/Market/Indicators.antt =====
-- trading_engine/signals/indicators.py. A series is a list, oldest first.
use Prim.Native.Nat.{◌-◌ as ◌∸◌}
use neuravex.Prelude.{
  ℕ, zero, suc, ◌&&◌, List, [], ◌∷◌, ◌++◌, map, ltb, leb, length, take, drop, if◌then◌else◌, last?,
  or_else,
}
use neuravex.Float.{Float, ◌+◌, ◌-◌, ◌*◌, ◌/◌, ◌<◌, ◌>◌, ◌==◌, of_ℕ, neg, abs}
use neuravex.Market.Numpy.{Numpy, zip_with, init, tail, replicate, maximum}

module _ {F : Type 0} ⦃fl : Float F⦄ where
  -- The loop of `ema`, after its first entry.
  unfoldable pub ema_from : F → F → List F → List F
  ema_from alpha previous [] = []
  ema_from alpha previous (v ∷ vs) =
      let now = alpha * v + (of_ℕ 1 - alpha) * previous in now ∷ ema_from alpha now vs

  -- The code reads `values[0]`, and raises on an empty array; its callers pass none.
  unfoldable pub ema : List F → ℕ → List F
  unfolding ema_from
  ema [] span = []
  ema (v ∷ vs) span = v ∷ ema_from (of_ℕ 2 / of_ℕ (suc span)) v vs

  -- `np.where(x == 0, np.nan, x)`
  abbrev nan_if_zero : F → F
  nan_if_zero x = if x == of_ℕ 0 then fl.nan else x

  -- max(h - l, |h - c|, |l - c|)
  unfoldable pub true_range : F → F → F → F
  true_range h l c = maximum (maximum (h - l) (abs (h - c))) (abs (l - c))

  unfoldable pub true_ranges : List F → List F → List F → List F
  true_ranges (h ∷ hs) (l ∷ ls) (c ∷ cs) = true_range h l c ∷ true_ranges hs ls cs
  true_ranges _ _ _ = []

  -- [close[0]] + close[:-1]
  abbrev previous_closes : List F → List F
  previous_closes [] = []
  previous_closes (c ∷ cs) = c ∷ init (c ∷ cs)

  unfoldable pub atr : List F → List F → List F → ℕ → List F
  unfolding ema true_ranges true_range
  atr high low close period = ema (true_ranges high low (previous_closes close)) period

  -- The gain of one side over the other, if it is positive.
  abbrev directional : F → F → F
  directional mine other = if (mine > other) && (mine > of_ℕ 0) then mine else of_ℕ 0

  -- `np.nan_to_num(x, nan=0.0)`: NaN is the value that differs from itself.
  abbrev nan_to_zero : F → F
  nan_to_zero x = if x == x then x else of_ℕ 0

  directional_index : F → F → F
  directional_index plus minus =
      nan_to_zero (of_ℕ 100 * abs (plus - minus) / nan_if_zero (plus + minus))

  unfoldable pub adx : List F → List F → List F → ℕ → F
  unfolding ema true_ranges true_range directional_index
  adx high low close period =
      if ltb (length close) (suc period)
      then of_ℕ 0
      else or_else (last? (ema (zip_with directional_index plus_di minus_di) period)) (of_ℕ 0)
    where
      up_move : List F
      up_move = zip_with ◌-◌ (tail high) (init high)

      down_move : List F
      down_move = zip_with ◌-◌ (init low) (tail low)

      range : List F
      range = ema (true_ranges (tail high) (tail low) (init close)) period

      index : List F → List F
      index moves = zip_with (λ dm r. of_ℕ 100 * dm / nan_if_zero r) (ema moves period) range

      plus_di : List F
      plus_di = index (zip_with directional up_move down_move)

      minus_di : List F
      minus_di = index (zip_with directional down_move up_move)

  -- np.diff(close, prepend=close[0])
  abbrev diff : List F → List F
  diff close = zip_with ◌-◌ close (previous_closes close)

  rsi_value : F → F → F
  rsi_value gain loss =
      let rs = if loss == of_ℕ 0 then fl.infinity else gain / loss in
      of_ℕ 100 - of_ℕ 100 / (of_ℕ 1 + rs)

  unfoldable pub rsi : List F → ℕ → List F
  unfolding ema rsi_value
  rsi close period = zip_with rsi_value (ema gain period) (ema loss period)
    where
      gain : List F
      gain = map (λ d. if d > of_ℕ 0 then d else of_ℕ 0) (diff close)

      loss : List F
      loss = map (λ d. if d < of_ℕ 0 then neg d else of_ℕ 0) (diff close)

  -- The histogram of `macd(close)` at its default periods, the part that the strategies read.
  unfoldable pub macd : List F → List F
  unfolding ema
  macd close =
      let line = zip_with ◌-◌ (ema close 12) (ema close 26) in zip_with ◌-◌ line (ema line 9)

  unfoldable pub rate_of_change : List F → ℕ → List F
  rate_of_change close period = zip_with (λ c s. (c - s) / s) close shifted
    where
      shifted : List F
      shifted =
          if ltb period (length close)
          then replicate period fl.nan ++ take (length close ∸ period) close
          else replicate (length close) fl.nan

  module _ (np : Numpy F) where
    unfoldable pub sma : List F → ℕ → List F
    sma values period =
        if ltb (length values) period
        then replicate (length values) fl.nan
        else replicate (period ∸ 1) fl.nan
          ++ np.convolve values (replicate period (of_ℕ 1 / of_ℕ period))

    -- np.std(close[max(0, i - period + 1) : i + 1]) from i = period - 1, NaN before.
    rolling_from : List F → ℕ → ℕ → ℕ → List F
    rolling_from close period zero i = []
    rolling_from close period (suc left) i =
        (if leb period (suc i) then np.std (drop (suc i ∸ period) (take (suc i) close)) else fl.nan)
        ∷ rolling_from close period left (suc i)

    pub rolling_std : List F → ℕ → List F
    unfolding rolling_from
    rolling_std close period = rolling_from close period (length close) 0

    pub record Bands : Type 0 where
      pub upper : List F
      pub mid : List F
      pub lower : List F

    unfoldable pub bollinger_bands : List F → ℕ → F → Bands
    unfolding sma rolling_std
    bollinger_bands close period num_std =
        let centre = sma close period in
        let width = map (λ s. num_std * s) (rolling_std close period) in
        record {
          upper = zip_with ◌+◌ centre width;
          mid = centre;
          lower = zip_with ◌-◌ centre width;
        }

    unfoldable pub z_score : List F → ℕ → List F
    unfolding sma rolling_std
    z_score close period =
        zip_with (λ d s. d / nan_if_zero s) (zip_with ◌-◌ close (sma close period))
          (rolling_std close period)

    unfoldable pub realized_vol : List F → ℕ → F
    realized_vol close periods_per_year =
        let logs = map np.log close in
        let returns = zip_with ◌-◌ (tail logs) (init logs) in
        if ltb (length close) 2
        then of_ℕ 0
        else if ltb (length returns) 2
        then of_ℕ 0
        else np.sample_std returns * np.sqrt (of_ℕ periods_per_year)
