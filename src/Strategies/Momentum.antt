-- ===== src/Strategies/Momentum.antt =====
-- trading_engine/strategies/momentum.py. The arrays of an OHLCV have one length.
use Prim.Native.Nat.{◌+◌ as add_ℕ, max as max_ℕ}
use neuravex.Prelude.{
  ℕ, suc, String, Bool, true, false, not, ◌&&◌, ◌||◌, Option, none, some, List, [], ◌∷◌, ltb, leb,
  length, take_last, if◌then◌else◌,
}
use neuravex.Float.{Float, ◌+◌, ◌*◌, ◌<◌, ◌<=◌, ◌>◌, ◌>=◌, ◌==◌, lit, of_ℕ, min}
use neuravex.Market.Numpy.{Numpy, init}
use neuravex.Market.Indicators.{atr, macd, rate_of_change, rsi}
use neuravex.Market.Regime.{MarketRegime, RegimeReading, strong_bull, bull, sideways}
use neuravex.Risk.Plan.{Direction, long, short}
use neuravex.Strategies.Arrays.{latest, latest_but_one, risk_or}
use neuravex.Strategies.Signal.{Ohlcv, StrategySignal, is_regime_allowed}

pub record Momentum : Type 0 where
  pub rsi_period : ℕ
  pub roc_period : ℕ
  pub volume_lookback : ℕ

-- What `generate_signal` computes before it decides.
pub record MomentumView (F : Type 0) : Type 0 where
  pub current_rsi : F
  pub hist_before : F
  pub hist_now : F
  pub momentum_up : Bool
  pub volume_confirmed : Bool
  pub risk : F

abbrev pub momentum_regimes : List MarketRegime
momentum_regimes = strong_bull ∷ bull ∷ sideways ∷ []

-- `MomentumStrategy()`
abbrev pub momentum : Momentum
momentum = record { rsi_period = 14; roc_period = 10; volume_lookback = 20 }

-- `sum` of a list of `bool`
abbrev pub count_true : List Bool → ℕ
count_true [] = 0
count_true (true ∷ bs) = suc (count_true bs)
count_true (false ∷ bs) = count_true bs

module _ {F : Type 0} ⦃fl : Float F⦄ where
  unfoldable pub bullish_votes : MomentumView F → ℕ
  bullish_votes v = count_true (
      ((of_ℕ 40 <= v.current_rsi) && (v.current_rsi <= of_ℕ 70))
      ∷ (((v.hist_before <= of_ℕ 0) && (v.hist_now > of_ℕ 0)) || (v.hist_now > of_ℕ 0))
      ∷ v.momentum_up
      ∷ v.volume_confirmed
      ∷ [])

  unfoldable pub bearish_votes : MomentumView F → ℕ
  bearish_votes v = count_true (
      ((of_ℕ 30 <= v.current_rsi) && (v.current_rsi <= of_ℕ 60) && (v.current_rsi < of_ℕ 50))
      ∷ (((v.hist_before >= of_ℕ 0) && (v.hist_now < of_ℕ 0)) || (v.hist_now < of_ℕ 0))
      ∷ not v.momentum_up
      ∷ v.volume_confirmed
      ∷ [])

  module _ (np : Numpy F) (strategy : Momentum) where
    abbrev average_volume : List F → F
    average_volume volume =
        if ltb strategy.volume_lookback (length volume)
        then np.mean (init (take_last strategy.volume_lookback volume))
        else of_ℕ 0

    unfoldable pub momentum_view : Ohlcv F → MomentumView F
    momentum_view d =
        let hist = macd d.close in
        let roc = latest (rate_of_change d.close strategy.roc_period) in
        let volume = average_volume d.volume in
        record {
          current_rsi = latest (rsi d.close strategy.rsi_period);
          hist_before = latest_but_one hist;
          hist_now = latest hist;
          momentum_up = if roc == roc then roc > of_ℕ 0 else false;
          volume_confirmed = (volume > of_ℕ 0) && (latest d.volume > (lit 13 1 * volume));
          risk = risk_or (lit 2 2) (latest (atr d.high d.low d.close 14)) (latest d.close);
        }

    abbrev pub momentum_of : String → Direction → MomentumView F → ℕ → F → F → StrategySignal F
    momentum_of symbol direction v votes cap reward = record {
      symbol = symbol;
      direction = direction;
      confidence = min (lit 5 1 + lit 1 1 * of_ℕ votes) cap;
      expected_return = v.risk * reward;
      risk = v.risk;
      time_horizon = "1h";
      strategy_name = "momentum_rsi_macd";
    }

    unfoldable pub momentum_choice : String → MomentumView F → Option (StrategySignal F)
    momentum_choice symbol v =
        if leb 3 (bullish_votes v) && (v.current_rsi < of_ℕ 75)
        then some (momentum_of symbol long v (bullish_votes v) (lit 92 2) (lit 18 1))
        else if leb 3 (bearish_votes v) && (v.current_rsi > of_ℕ 25)
        then some (momentum_of symbol short v (bearish_votes v) (lit 88 2) (lit 16 1))
        else none

    unfoldable pub momentum_signal : String → Ohlcv F → RegimeReading F → Option (StrategySignal F)
    unfolding momentum_choice
    momentum_signal symbol d regime =
        if not (is_regime_allowed momentum_regimes regime)
        then none
        else if ltb (length d.close) (add_ℕ (max_ℕ strategy.rsi_period 35) 5)
        then none
        else momentum_choice symbol (momentum_view d)
