-- ===== src/Risk/Exits.antt =====
-- trading_engine/risk/exits.py
pub mod Rules
use neuravex.Prelude.{
  Bool, false, Option, none, some, List, not, ◌&&◌, ◌||◌, ltb, length, if◌then◌else◌, last?,
}
use neuravex.Float.{Float, ◌-◌, ◌*◌, ◌<◌, ◌<=◌, ◌>◌, ◌>=◌, ◌==◌, lit, of_ℕ, abs}
use neuravex.Market.Indicators.{atr}
use neuravex.Risk.Plan.{RiskPlan, Multipliers, Planned, plan, refused, long, build_risk_plan}

pub data ExitReason : Type 0 where
  stop_loss take_profit : ExitReason

pub record ExitDecision (F : Type 0) : Type 0 where
  pub reason : ExitReason
  pub net_profit : F

module _ {F : Type 0} ⦃fl : Float F⦄ where
  abbrev pub default_sell_cost_rate : F
  default_sell_cost_rate = lit 15 4

  -- The defaults of `build_risk_plan` around a given stop multiple.
  abbrev pub default_multipliers : F → Multipliers F
  default_multipliers stop = record {
    stop = stop;
    reward_1 = lit 15 1;
    reward_2 = of_ℕ 3;
    trailing = of_ℕ 1;
  }

  -- `np.isfinite(x)`
  abbrev is_finite : F → Bool
  is_finite x = abs x < fl.infinity

  abbrev stop_of : Planned F → Option F
  stop_of (plan p) = some p.stop_loss
  stop_of (refused _) = none

  abbrev stop_below : F → F → Option F → Option F
  stop_below cost_basis multiple none = none
  stop_below cost_basis multiple (some atr_value) =
      if not (is_finite atr_value) || (atr_value <= of_ℕ 0)
      then none
      else stop_of (build_risk_plan cost_basis long atr_value (default_multipliers multiple))

  unfoldable pub atr_stop_price : F → List F → List F → List F → F → Option F
  atr_stop_price cost_basis highs lows closes atr_multiple =
      if ltb (length closes) 15 || (cost_basis <= of_ℕ 0)
      then none
      else stop_below cost_basis atr_multiple (last? (atr highs lows closes 14))

  unfoldable pub net_profit_if_sold : F → F → F → F → F
  net_profit_if_sold quantity cost_basis price sell_cost_rate =
      quantity * price * (of_ℕ 1 - sell_cost_rate) - quantity * cost_basis

  abbrev pub reaches_stop : F → Option F → Bool
  reaches_stop price none = false
  reaches_stop price (some stop) = price <= stop

  abbrev pub reaches_target : F → Option F → Bool
  reaches_target net none = false
  reaches_target net (some target) = (target > of_ℕ 0) && (net >= target)

  unfoldable pub evaluate_exit : F → F → F → Option F → Option F → F → Option (ExitDecision F)
  evaluate_exit quantity cost_basis price stop_price take_profit_usdc sell_cost_rate =
      let net = net_profit_if_sold quantity cost_basis price sell_cost_rate in
      if (quantity <= of_ℕ 0) || (cost_basis <= of_ℕ 0) || (price <= of_ℕ 0)
      then none
      else if reaches_stop price stop_price
      then some (record { reason = stop_loss; net_profit = net })
      else if reaches_target net take_profit_usdc
      then some (record { reason = take_profit; net_profit = net })
      else none
