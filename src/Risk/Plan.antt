-- ===== src/Risk/Plan.antt =====
-- trading_engine/risk/risk_plan.py
pub mod Levels
use neuravex.Prelude.{Option, none, some, if◌then◌else◌}
use neuravex.Float.{Float, ◌+◌, ◌-◌, ◌*◌, ◌<=◌, of_ℕ}

-- The direction of a signal. The code passes texts; `flat` is the one that no plan is made for.
pub data Direction : Type 0 where
  long short flat : Direction

pub Direction-discrete : Discrete Direction
Direction-discrete = hlevel

pub record RiskPlan (F : Type 0) : Type 0 where
  pub entry : F
  pub stop_loss : F
  pub take_profit_1 : F
  pub take_profit_2 : F
  pub trailing_stop_distance : F
  pub risk_reward_ratio : F

-- The multipliers of `build_risk_plan`.
pub record Multipliers (F : Type 0) : Type 0 where
  pub stop : F
  pub reward_1 : F
  pub reward_2 : F
  pub trailing : F

pub data PlanError : Type 0 where
  no_volatility unknown_direction : PlanError

pub data Planned (F : Type 0) : Type 0 where
  plan : RiskPlan F → Planned F
  refused : PlanError → Planned F

module _ {F : Type 0} ⦃fl : Float F⦄ where
  abbrev levels : F → F → F → F → F → Multipliers F → RiskPlan F
  levels entry stop_distance stop_loss tp1 tp2 m = record {
    entry = entry;
    stop_loss = stop_loss;
    take_profit_1 = tp1;
    take_profit_2 = tp2;
    trailing_stop_distance = stop_distance * m.trailing;
    risk_reward_ratio = m.reward_1;
  }

  plan_for : Direction → F → F → Multipliers F → Planned F
  plan_for long entry d m =
      plan (levels entry d (entry - d) (entry + d * m.reward_1) (entry + d * m.reward_2) m)
  plan_for short entry d m =
      plan (levels entry d (entry + d) (entry - d * m.reward_1) (entry - d * m.reward_2) m)
  plan_for flat entry d m = refused unknown_direction

  unfoldable pub build_risk_plan : F → Direction → F → Multipliers F → Planned F
  unfolding plan_for
  build_risk_plan entry direction atr_value m =
      if atr_value <= of_ℕ 0
      then refused no_volatility
      else plan_for direction entry (atr_value * m.stop) m
