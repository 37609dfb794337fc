-- ===== src/Market/Regime/Classes.antt =====
-- What the classes of regime_detector.py say about the numbers that they are read off.
use neuravex.Prelude.{ℕ, ◌≤◌, ◌≡◌, ◌⊎◌, inl, inr, Bool, true, List, arith, ltb, length, Bool-cases}
use neuravex.Float.{Float, IsIeee, ◌≼◌, ◌>=◌, lit}
use neuravex.Float.Order.{lt_of_le-lt}
use neuravex.Market.Numpy.{Numpy}
use neuravex.Market.Regime.{
  VolatilityRegime, RegimeReading, high_volatility, crash, low, normal, high, extreme,
  volatility_class, market_class, classify, detect_regime,
}

abbrev pub rank : VolatilityRegime → ℕ
rank low = 0
rank normal = 1
rank high = 2
rank extreme = 3

module _ {F : Type 0} ⦃fl : Float F⦄ where
  -- How the two classes of a reading fit together.
  pub record IsCoherent (r : RegimeReading F) : Type 0 where
    pub crash_deep : r.market_regime ≡ crash → (r.drawdown_from_high >= lit 15 2) ≡ true
    pub extreme_defensive :
        r.volatility_regime ≡ extreme
        → (r.market_regime ≡ crash) ⊎ (r.market_regime ≡ high_volatility)
    pub high_extreme : r.market_regime ≡ high_volatility → r.volatility_regime ≡ extreme

  classify-IsCoherent :
      (vol drawdown : F) (up : Bool) (strength pct : F)
      → IsCoherent (classify vol drawdown up strength pct)
  unfolding classify
  classify-IsCoherent vol drawdown up strength pct = ground arith

  -- Whatever the series, a reading of CRASH has a drawdown of at least 15 percent, extreme volatility
  -- is always read as CRASH or HIGH_VOLATILITY, and HIGH_VOLATILITY means extreme volatility.
  pub detect_regime-IsCoherent :
      (np : Numpy F) (year window : ℕ) (highs lows close : List F)
      → IsCoherent (detect_regime np year window highs lows close)
  unfolding detect_regime
  detect_regime-IsCoherent np year window highs lows close =
      elim (Bool-cases (ltb (length close) 20)) [
        | inl short ↦ rw short (ground arith)
        | inr long ↦ rw long (classify-IsCoherent _ _ _ _ _)
      ]

  -- A drawdown of at least 15 percent is a crash, whatever the volatility and the trend.
  pub market_class-crash :
      (drawdown : F) (v : VolatilityRegime) (up : Bool) (strength pct : F)
      → (drawdown >= lit 15 2) ≡ true
      → market_class drawdown v up strength pct ≡ crash
  unfolding market_class
  market_class-crash d v up s p h = ground arith

  -- A larger volatility is never put into a lower class.
  pub volatility_class_mono :
      IsIeee F → (v w : F) → v ≼ w → rank (volatility_class v) ≤ rank (volatility_class w)
  unfolding volatility_class
  volatility_class_mono ieee v w h = ground (
    arith,
    lt_of_le-lt ieee v w (lit 4 1) h,
    lt_of_le-lt ieee v w (lit 8 1) h,
    lt_of_le-lt ieee v w (lit 15 1) h,
  )
