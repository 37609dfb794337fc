-- ===== src/Decision/Scoring.antt =====
-- When the decision engine trades.
use neuravex.Prelude.{
  ◌≡◌, ◌↔◌, Bool, true, false, none, some, [], ◌≤◌, length, if◌then◌else◌, arith,
}
use neuravex.Float.{Float, ◌<◌, ◌<=◌, of_ℕ}
use neuravex.Market.Regime.{crash}
use neuravex.Risk.Plan.{long}
use neuravex.Strategies.Signal.{same_regime}
use neuravex.Decision.{
  Action, no_trade, Decision, ScoreRequest, is_long, is_empty, action_of, longs, shorts, majority,
  relevant, average_confidence, net_edge, breakdown, veto, score_signals,
}

abbrev pub is_trade : Action → Bool
is_trade no_trade = false
is_trade _ = true

module _ {F : Type 0} ⦃fl : Float F⦄ (r : ScoreRequest F) where
  -- Every condition of a trade.
  pub record IsTradable : Type 0 where
    pub some_signal : is_empty r.signals ≡ false
    pub confident : (average_confidence (relevant r) < r.minimum_confidence) ≡ false
    pub profitable : (net_edge r (relevant r) < r.minimum_expected_edge) ≡ false
    pub positive : ((breakdown r (relevant r)).final_score <= of_ℕ 0) ≡ false
    pub no_crash : same_regime r.regime.market_regime crash ≡ false

  -- A decision trades exactly when there is a signal, the mean confidence and the mean expected return
  -- after costs of the signals on its side are not below their minima, the ensemble score is not zero
  -- or less, and the market is not in a crash; it then buys for LONG and sells for SHORT.
  pub score_signals_trades :
      {d : Decision F}
      → score_signals r ≡ some d
      → ((is_trade d.action ≡ true) ↔ IsTradable)
        × (is_trade d.action ≡ true → d.action ≡ action_of (majority r))
  unfolding score_signals veto majority
  score_signals_trades e = ground arith

  -- The side of a decision is LONG if at least as many signals are LONG as SHORT, else SHORT; the
  -- signals that contribute are all those of that side and no others.
  pub score_signals_side :
      {d : Decision F}
      → score_signals r ≡ some d
      → is_empty r.signals ≡ false
      → (d.direction ≡ some (majority r))
        × ((majority r ≡ long) ↔ (length (shorts r) ≤ length (longs r)))
        × (d.contributing_signals ≡ (if is_long (majority r) then longs r else shorts r))
  unfolding score_signals majority relevant
  score_signals_side e h = ground arith

  -- Scoring raises exactly when there are signals and every one is FLAT.
  pub score_signals_raises :
      (score_signals r ≡ none) ↔ ((is_empty r.signals ≡ false) × (longs r ≡ []) × (shorts r ≡ []))
  unfolding score_signals relevant
  score_signals_raises = ground arith
