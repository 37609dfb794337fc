-- ===== src/Risk/Sizing.antt =====
-- trading_engine/risk/position_sizing.py
pub mod Bounds
use neuravex.Prelude.{Option, none, some, ◌||◌, if◌then◌else◌, or_else}
use neuravex.Float.{Float, ◌+◌, ◌-◌, ◌*◌, ◌/◌, ◌<=◌, ◌>◌, lit, of_ℕ, abs, truthy, max, min}

pub data Cap : Type 0 where
  max_position_size max_portfolio_exposure no_room : Cap

pub record PositionSizeResult (F : Type 0) : Type 0 where
  pub quantity : F
  pub notional : F
  pub risk_amount : F
  pub capped_by : Option Cap

pub record SizingRequest (F : Type 0) : Type 0 where
  pub account_equity : F
  pub entry_price : F
  pub stop_loss_price : F
  pub confidence : F
  pub max_trade_risk : F
  pub max_position_size_fraction : F
  pub current_portfolio_exposure_fraction : F
  pub max_portfolio_exposure_fraction : F
  pub correlation_penalty : F

-- The running values of the function: the quantity, the notional, and what capped them.
pub record Draft (F : Type 0) : Type 0 where
  pub quantity : F
  pub notional : F
  pub capped_by : Option Cap

module _ {F : Type 0} ⦃fl : Float F⦄ where
  -- max(0.0, min(1.0, x))
  abbrev pub unit : F → F
  unit x = max (of_ℕ 0) (min (of_ℕ 1) x)

  -- What the fixed-fractional model asks for, before the caps.
  unfoldable pub wanted_risk : SizingRequest F → F
  wanted_risk r =
      let confidence_scalar = lit 5 1 + lit 5 1 * unit r.confidence in
      let correlation_scalar = of_ℕ 1 - unit r.correlation_penalty * lit 6 1 in
      r.account_equity * r.max_trade_risk * confidence_scalar * correlation_scalar

  unfoldable pub stop_distance : SizingRequest F → F
  stop_distance r = abs (r.entry_price - r.stop_loss_price)

  unfoldable pub wanted_notional : SizingRequest F → F
  wanted_notional r = wanted_risk r / stop_distance r * r.entry_price

  unfoldable pub position_cap : SizingRequest F → F
  position_cap r = r.max_position_size_fraction * r.account_equity

  unfoldable pub exposure_room : SizingRequest F → F
  exposure_room r = max (of_ℕ 0) (
      (r.max_portfolio_exposure_fraction - r.current_portfolio_exposure_fraction)
      * r.account_equity)

  cap_position : SizingRequest F → Draft F → Draft F
  cap_position r d =
      if d.notional > position_cap r
      then record {
        quantity = position_cap r / r.entry_price;
        notional = position_cap r;
        capped_by = some max_position_size;
      }
      else d

  cap_exposure : SizingRequest F → Draft F → Draft F
  cap_exposure r d =
      if d.notional > exposure_room r
      then record {
        quantity = if truthy r.entry_price then exposure_room r / r.entry_price else of_ℕ 0;
        notional = exposure_room r;
        capped_by = some max_portfolio_exposure;
      }
      else d

  finish : SizingRequest F → Draft F → PositionSizeResult F
  finish r d =
      if d.quantity <= of_ℕ 0
      then record {
        quantity = of_ℕ 0;
        notional = of_ℕ 0;
        risk_amount = of_ℕ 0;
        capped_by = some (or_else d.capped_by no_room);
      }
      else record {
        quantity = d.quantity;
        notional = d.notional;
        risk_amount = d.quantity * stop_distance r;
        capped_by = d.capped_by;
      }

  -- `none` is the ValueError.
  unfoldable pub calculate_position_size : SizingRequest F → Option (PositionSizeResult F)
  unfolding cap_position cap_exposure finish
  calculate_position_size r =
      if (r.entry_price <= of_ℕ 0) || (r.stop_loss_price <= of_ℕ 0)
      then none
      else if stop_distance r <= of_ℕ 0
      then none
      else some (finish r (cap_exposure r (cap_position r start)))
    where
      start : Draft F
      start = record {
        quantity = wanted_risk r / stop_distance r;
        notional = wanted_notional r;
        capped_by = none;
      }
