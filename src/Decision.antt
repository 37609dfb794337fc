-- ===== src/Decision.antt =====
-- trading_engine/decision_engine.py
pub mod Reasons
pub mod Scoring
use text.Mathlib.Text.{starts_with}
use neuravex.Prelude.{
  ℕ, String, Bool, true, false, not, Option, none, some, List, [], ◌∷◌, ◌++◌, foldl, map, leb, keep,
  length, str_eq, if◌then◌else◌, or_else,
}
use neuravex.Prelude.Dict.{Dict, get}
use neuravex.Float.{Float, ◌+◌, ◌-◌, ◌*◌, ◌/◌, ◌<◌, ◌<=◌, ◌>◌, lit, of_ℕ, neg}
use neuravex.Market.Regime.{
  MarketRegime, VolatilityRegime, RegimeReading, strong_bull, bull, sideways, bear, high_volatility,
  crash, high, extreme,
}
use neuravex.Risk.Plan.{Direction, long, short, flat}
use neuravex.Strategies.Signal.{StrategySignal, same_regime}
use neuravex.Decision.Reasons.{
  Reason, supports, disagrees, elevated_volatility, correlated_exposure, no_signal, low_confidence,
  low_edge, score_not_positive, crash_overrides,
}

pub record ScoreBreakdown (F : Type 0) : Type 0 where
  pub technical_score : F
  pub momentum_score : F
  pub regime_score : F
  pub volume_score : F
  pub strategy_performance_score : F
  pub volatility_penalty : F
  pub correlation_penalty : F
  pub transaction_cost_penalty : F
  pub final_score : F

pub data Action : Type 0 where
  buy sell no_trade : Action

-- `id` is set by the first save, `executed` when an order was placed or handed to the phone.
pub record Decision (F : Type 0) : Type 0 where
  pub symbol : String
  pub action : Action
  pub direction : Option Direction
  pub confidence : F
  pub score : ScoreBreakdown F
  pub reasons_for : List (Reason F)
  pub reasons_against : List (Reason F)
  pub contributing_signals : List (StrategySignal F)
  pub id : Option ℕ
  pub executed : Bool
  pub entry_regime : Option MarketRegime

pub record ScoreRequest (F : Type 0) : Type 0 where
  pub symbol : String
  pub signals : List (StrategySignal F)
  pub regime : RegimeReading F
  pub strategy_performance : Dict F
  pub volume_confirmation_score : F
  pub correlation_penalty : F
  pub estimated_transaction_cost : F
  pub minimum_confidence : F
  pub minimum_expected_edge : F

abbrev pub is_long : Direction → Bool
is_long long = true
is_long _ = false

abbrev pub is_short : Direction → Bool
is_short short = true
is_short _ = false

abbrev pub is_empty : {A : Type 0} → List A → Bool
is_empty [] = true
is_empty (_ ∷ _) = false

-- "BUY" if direction == "LONG" else "SELL"
abbrev pub action_of : Direction → Action
action_of long = buy
action_of _ = sell

module _ {F : Type 0} ⦃fl : Float F⦄ where
  abbrev pub regime_weight : MarketRegime → F
  regime_weight strong_bull = lit 20 2
  regime_weight bull = lit 10 2
  regime_weight sideways = of_ℕ 0
  regime_weight bear = neg (lit 5 2)
  regime_weight high_volatility = neg (lit 15 2)
  regime_weight crash = neg (lit 40 2)

  abbrev volatility_weight : VolatilityRegime → F
  volatility_weight high = lit 8 2
  volatility_weight extreme = lit 25 2
  volatility_weight _ = of_ℕ 0

  abbrev pub sum : List F → F
  sum = foldl ◌+◌ (of_ℕ 0)

  -- sum(xs) / len(xs) if xs else 0.0
  abbrev pub mean_or_zero : List F → F
  mean_or_zero [] = of_ℕ 0
  mean_or_zero (x ∷ xs) = sum (x ∷ xs) / of_ℕ (length (x ∷ xs))

  abbrev pub longs : ScoreRequest F → List (StrategySignal F)
  longs r = keep (λ s. is_long s.direction) r.signals

  abbrev pub shorts : ScoreRequest F → List (StrategySignal F)
  shorts r = keep (λ s. is_short s.direction) r.signals

  -- A tie goes to LONG.
  unfoldable pub majority : ScoreRequest F → Direction
  majority r = if leb (length (shorts r)) (length (longs r)) then long else short

  unfoldable pub relevant : ScoreRequest F → List (StrategySignal F)
  relevant r = if leb (length (shorts r)) (length (longs r)) then longs r else shorts r

  unfoldable pub opposing : ScoreRequest F → List (StrategySignal F)
  opposing r = if leb (length (shorts r)) (length (longs r)) then shorts r else longs r

  -- The ensemble score over the signals `rel` of the chosen direction.
  unfoldable pub breakdown : ScoreRequest F → List (StrategySignal F) → ScoreBreakdown F
  breakdown r rel =
      let technical = mean_or_zero (map (λ s. s.confidence) rel) in
      let momentum =
        sum
          (map (λ s. s.expected_return) (keep (λ s. starts_with s.strategy_name "momentum") rel)) in
      let regime = regime_weight r.regime.market_regime in
      let volume = r.volume_confirmation_score * lit 15 2 in
      let performance =
        mean_or_zero (map (λ s. or_else (get s.strategy_name r.strategy_performance) (of_ℕ 0)) rel)
        * lit 15 2 in
      let volatility = volatility_weight r.regime.volatility_regime in
      let correlation = r.correlation_penalty * lit 15 2 in
      let cost = r.estimated_transaction_cost * of_ℕ 5 in
      record {
        technical_score = technical;
        momentum_score = momentum;
        regime_score = regime;
        volume_score = volume;
        strategy_performance_score = performance;
        volatility_penalty = volatility;
        correlation_penalty = correlation;
        transaction_cost_penalty = cost;
        final_score =
            (technical + momentum + regime + volume + performance - volatility - correlation - cost)
            * (of_ℕ (length rel) / of_ℕ (length r.signals));
      }

  abbrev pub zero_breakdown : ScoreBreakdown F
  zero_breakdown = record {
    technical_score = of_ℕ 0;
    momentum_score = of_ℕ 0;
    regime_score = of_ℕ 0;
    volume_score = of_ℕ 0;
    strategy_performance_score = of_ℕ 0;
    volatility_penalty = of_ℕ 0;
    correlation_penalty = of_ℕ 0;
    transaction_cost_penalty = of_ℕ 0;
    final_score = of_ℕ 0;
  }

  -- sum(s.confidence for s in relevant) / len(relevant), for signals that are not empty.
  unfoldable pub average_confidence : List (StrategySignal F) → F
  average_confidence rel = sum (map (λ s. s.confidence) rel) / of_ℕ (length rel)

  unfoldable pub net_edge : ScoreRequest F → List (StrategySignal F) → F
  net_edge r rel =
      sum (map (λ s. s.expected_return) rel) / of_ℕ (length rel) - r.estimated_transaction_cost

  -- The veto that the ladder ends in, or `none` for a trade.
  unfoldable pub veto : ScoreRequest F → List (StrategySignal F) → Option (Reason F)
  veto r rel =
      if average_confidence rel < r.minimum_confidence
      then some (low_confidence (average_confidence rel) r.minimum_confidence)
      else if net_edge r rel < r.minimum_expected_edge
      then some (low_edge (net_edge r rel) r.minimum_expected_edge)
      else if (breakdown r rel).final_score <= of_ℕ 0
      then some score_not_positive
      else if same_regime r.regime.market_regime crash
      then some crash_overrides
      else none

  arguments_for : ScoreRequest F → List (Reason F)
  arguments_for r = map (λ s. supports s.strategy_name s.direction s.confidence) (relevant r)

  arguments_against : ScoreRequest F → List (Reason F)
  arguments_against r =
      let b = breakdown r (relevant r) in
      map (λ s. disagrees s.strategy_name s.direction s.confidence) (opposing r)
      ++ ((if b.volatility_penalty > of_ℕ 0
            then elevated_volatility r.regime.volatility_regime ∷ []
            else [])
          ++ (if b.correlation_penalty > of_ℕ 0 then correlated_exposure ∷ [] else []))

  unfoldable pub decide_on : ScoreRequest F → Option (Reason F) → Decision F
  unfolding arguments_for arguments_against
  decide_on r vetoed = record {
    symbol = r.symbol;
    action = elim vetoed [ none ↦ action_of (majority r) | some _ ↦ no_trade ];
    direction = some (majority r);
    confidence = average_confidence (relevant r);
    score = breakdown r (relevant r);
    reasons_for = arguments_for r;
    reasons_against = arguments_against r ++ elim vetoed [ none ↦ [] | some reason ↦ reason ∷ [] ];
    contributing_signals = relevant r;
    id = none;
    executed = false;
    entry_regime = none;
  }

  pub no_signals : ScoreRequest F → Decision F
  no_signals r = record {
    symbol = r.symbol;
    action = no_trade;
    direction = none;
    confidence = of_ℕ 0;
    score = zero_breakdown;
    reasons_for = [];
    reasons_against = no_signal ∷ [];
    contributing_signals = [];
    id = none;
    executed = false;
    entry_regime = none;
  }

  -- `none` is the ZeroDivisionError of an average over no signal.
  unfoldable pub score_signals : ScoreRequest F → Option (Decision F)
  unfolding decide_on no_signals
  score_signals r =
      if is_empty r.signals
      then some (no_signals r)
      else if is_empty (relevant r)
      then none
      else some (decide_on r (veto r (relevant r)))
