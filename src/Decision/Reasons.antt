-- ===== src/Decision/Reasons.antt =====
-- The entries of `reasons_for` and `reasons_against`, which the code formats as text: what is said,
-- with the values that it is said of.
use neuravex.Prelude.{ℕ, String, Option}
use neuravex.Market.Regime.{MarketRegime, VolatilityRegime}
use neuravex.Risk.Plan.{Direction}
use neuravex.Risk.Sizing.{Cap}
use neuravex.Risk.Limits.{Refusal}

pub data Reason (F : Type 0) : Type 0 where
  -- decision_engine.py
  supports : String → Direction → F → Reason F
  disagrees : String → Direction → F → Reason F
  elevated_volatility : VolatilityRegime → Reason F
  correlated_exposure : Reason F
  no_signal : Reason F
  low_confidence : F → F → Reason F
  low_edge : F → F → Reason F
  score_not_positive : Reason F
  crash_overrides : Reason F
  -- agent.py
  already_traded : ℕ → Reason F
  no_held_quantity : Reason F
  above_exit_ema : ℕ → Reason F
  close_in_flight : Reason F
  own_exit : F → Reason F
  few_strategies : ℕ → ℕ → Reason F
  regime_not_allowed : MarketRegime → Reason F
  below_trend_ema : ℕ → Reason F
  narrow_market : F → F → Reason F
  supervisor_blocks : MarketRegime → Reason F
  short_without_holding : Reason F
  buy_in_flight : Reason F
  risk_engine : Option Refusal → Reason F
  zero_quantity : Option Cap → Reason F
  would_trade : F → F → F → Reason F
  would_close : F → Reason F
  flattened : F → Reason F
  close_failed : Reason F
