-- ===== src/Strategies/Gates.antt =====
-- What the four strategies of trading_engine/strategies have in common: when they may signal, and how
-- confident they may be.
use Prim.Native.Nat.{◌+◌ as add_ℕ, max as max_ℕ}
use neuravex.Prelude.{
  ℕ, String, ◌≡◌, ◌≢◌, Bool, true, false, not, Option, none, some, List, if◌then◌else◌, subst,
  arith, ltb, length, Bool-cases, inl, inr,
}
use neuravex.Float.{Float, IsIeee, ◌<◌, lit, min}
use neuravex.Float.Order.{not-lt_of_le, le_of_lt}
use neuravex.Market.Numpy.{Numpy}
use neuravex.Market.Regime.{MarketRegime, RegimeReading}
use neuravex.Risk.Plan.{Direction, long, short, flat}
use neuravex.Strategies.Signal.{Ohlcv, StrategySignal, is_regime_allowed}
use neuravex.Strategies.Trend.{
  TrendFollowing, trend_regimes, trend_signal, trend_choice, trend_long, trend_short,
}
use neuravex.Strategies.Momentum.{Momentum, momentum_regimes, momentum_signal, momentum_choice}
use neuravex.Strategies.Reversion.{
  MeanReversion, reversion_regimes, reversion_signal, reversion_choice,
}
use neuravex.Strategies.Breakout.{Breakout, breakout_regimes, breakout_signal, breakout_choice}

module _ {F : Type 0} ⦃fl : Float F⦄ (ieee : IsIeee F) where
  -- A signal is LONG or SHORT, for the symbol that was asked about, and no more confident than the cap
  -- of its direction.
  abbrev pub Sound : String → (Direction → F) → Option (StrategySignal F) → Type 0
  Sound symbol cap o =
      (s : StrategySignal F)
      → o ≡ some s
      → (s.direction ≢ flat) × ((cap s.direction < s.confidence) ≡ false) × (s.symbol ≡ symbol)

  -- A signal comes in an allowed regime only, and from enough candles.
  abbrev pub Gated :
      List MarketRegime → ℕ → Ohlcv F → RegimeReading F → Option (StrategySignal F) → Type 0
  Gated allowed needed d regime o =
      (s : StrategySignal F)
      → o ≡ some s
      → (is_regime_allowed allowed regime ≡ true) × (ltb (length d.close) needed ≡ false)

  abbrev pub Lawful :
      List MarketRegime
      → ℕ
      → (Direction → F)
      → String
      → Ohlcv F
      → RegimeReading F
      → Option (StrategySignal F)
      → Type 0
  Lawful allowed needed cap symbol d regime o = Sound symbol cap o × Gated allowed needed d regime o

  lit_irrefl : (m k : ℕ) → (fl.lit m k < fl.lit m k) ≡ false
  lit_irrefl m k = not-lt_of_le ieee (lit m k) (lit m k) (ieee.lit_mono m m k (omega arith))

  cap_left : (m k : ℕ) (x : F) → (fl.lit m k < min (lit m k) x) ≡ false
  cap_left m k x = elim (Bool-cases (x < lit m k)) [
    | inl t ↦ rw t (not-lt_of_le ieee (lit m k) x (le_of_lt ieee x (lit m k) t))
    | inr t ↦ rw t (lit_irrefl m k)
  ]

  cap_right : (m k : ℕ) (x : F) → (fl.lit m k < min x (lit m k)) ≡ false
  cap_right m k x = ground (arith, lit_irrefl m k)

  module _ (symbol : String) (cap : Direction → F) where
    Sound-some :
        (t : StrategySignal F)
        → (t.direction ≢ flat) × ((cap t.direction < t.confidence) ≡ false) × (t.symbol ≡ symbol)
        → Sound symbol cap (some t)
    Sound-some t h s e =
        let same : t ≡ s = cc in
        subst
          (λ u.
            (u.direction ≢ flat) × ((cap u.direction < u.confidence) ≡ false) × (u.symbol ≡ symbol))
          same h

    Sound-if :
        (b : Bool) {x y : Option (StrategySignal F)}
        → Sound symbol cap x
        → Sound symbol cap y
        → Sound symbol cap (if b then x else y)
    Sound-if true h k = h
    Sound-if false h k = k

    Sound-none : Sound symbol cap none
    Sound-none s e = cc

  long_ne_flat : long ≢ flat
  long_ne_flat e = cc

  short_ne_flat : short ≢ flat
  short_ne_flat e = cc

  -- The caps of the four strategies.
  abbrev pub caps : F → F → Direction → F
  caps up down long = up
  caps up down _ = down

  module _ (np : Numpy F) (symbol : String) (d : Ohlcv F) (regime : RegimeReading F) where
    trend_signal-Sound :
        (st : TrendFollowing F)
        → Sound symbol (caps (lit 95 2) (lit 90 2)) (trend_signal np st symbol d regime)
    unfolding trend_signal trend_choice trend_long trend_short
    trend_signal-Sound st =
        let cap = caps (lit 95 2) (lit 90 2) in
        search
          (
            Sound-if symbol cap,
            Sound-none symbol cap,
            Sound-some symbol cap,
            long_ne_flat,
            short_ne_flat,
            cap_left 95 2,
            cap_left 90 2,
          )
          depth 9

    reversion_signal-Sound :
        (st : MeanReversion F)
        → Sound symbol (caps (lit 90 2) (lit 88 2)) (reversion_signal np st symbol d regime)
    unfolding reversion_signal reversion_choice
    reversion_signal-Sound st =
        let cap = caps (lit 90 2) (lit 88 2) in
        search
          (
            Sound-if symbol cap,
            Sound-none symbol cap,
            Sound-some symbol cap,
            long_ne_flat,
            short_ne_flat,
            cap_left 90 2,
            cap_left 88 2,
          )
          depth 9

    momentum_signal-Sound :
        (st : Momentum)
        → Sound symbol (caps (lit 92 2) (lit 88 2)) (momentum_signal np st symbol d regime)
    unfolding momentum_signal momentum_choice
    momentum_signal-Sound st =
        let cap = caps (lit 92 2) (lit 88 2) in
        search
          (
            Sound-if symbol cap,
            Sound-none symbol cap,
            Sound-some symbol cap,
            long_ne_flat,
            short_ne_flat,
            cap_right 92 2,
            cap_right 88 2,
          )
          depth 9

    breakout_signal-Sound :
        (st : Breakout F)
        → Sound symbol (caps (lit 90 2) (lit 85 2)) (breakout_signal np st symbol d regime)
    unfolding breakout_signal breakout_choice
    breakout_signal-Sound st =
        let cap = caps (lit 90 2) (lit 85 2) in
        search
          (
            Sound-if symbol cap,
            Sound-none symbol cap,
            Sound-some symbol cap,
            long_ne_flat,
            short_ne_flat,
            cap_right 90 2,
            cap_right 85 2,
          )
          depth 9

    Gated-if :
        (allowed : List MarketRegime) (needed : ℕ) (o : Option (StrategySignal F))
        → Gated allowed needed d regime (
            if not (is_regime_allowed allowed regime)
            then none
            else if ltb (length d.close) needed
            then none
            else o)
    Gated-if allowed needed o s e = ground arith

    -- Whatever the candles: a signal of a strategy comes only in a regime that the strategy allows and
    -- from the number of candles that it needs, it is LONG or SHORT and for the symbol asked about, and
    -- its confidence is not above the strategy's cap for that direction.
    pub signals-Lawful :
        (t : TrendFollowing F) (m : Momentum) (r : MeanReversion F) (b : Breakout F)
        → Lawful trend_regimes
            (add_ℕ t.slow 5)
            (caps (lit 95 2) (lit 90 2))
            symbol
            d
            regime
            (trend_signal np t symbol d regime)
          × Lawful momentum_regimes
              (add_ℕ (max_ℕ m.rsi_period 35) 5)
              (caps (lit 92 2) (lit 88 2))
              symbol
              d
              regime
              (momentum_signal np m symbol d regime)
          × Lawful reversion_regimes
              (add_ℕ r.period 5)
              (caps (lit 90 2) (lit 88 2))
              symbol
              d
              regime
              (reversion_signal np r symbol d regime)
          × Lawful breakout_regimes
              (add_ℕ b.lookback 20)
              (caps (lit 90 2) (lit 85 2))
              symbol
              d
              regime
              (breakout_signal np b symbol d regime)
    unfolding trend_signal momentum_signal reversion_signal breakout_signal
    signals-Lawful t m r b = (
      (trend_signal-Sound t, Gated-if _ _ _),
      (momentum_signal-Sound m, Gated-if _ _ _),
      (reversion_signal-Sound r, Gated-if _ _ _),
      (breakout_signal-Sound b, Gated-if _ _ _),
    )
