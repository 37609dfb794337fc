-- ===== src/Execution/Monitor.antt =====
-- trading_engine/execution/position_monitor.py
use neuravex.Prelude.{Bool, not, ◌&&◌, Option, none, some, arith, if◌then◌else◌, or_else}
use neuravex.Float.{Float, IsIeee, IsNum, ◌≼◌, ◌+◌, ◌-◌, ◌<◌, ◌<=◌, ◌>◌, ◌>=◌, max, min}
use neuravex.Float.Order.{le_of_lt, le_max_left, min-le_left}
use neuravex.Risk.Plan.{Direction, long, short, flat}

pub data MonitorAction : Type 0 where
  hold close trail_stop : MonitorAction

pub data MonitorReason : Type 0 where
  nothing stop_loss_hit tp1_hit_move_to_breakeven trailing_up trailing_down : MonitorReason

pub record PositionUpdate (F : Type 0) : Type 0 where
  pub action : MonitorAction
  pub new_stop : Option F
  pub reason : MonitorReason

pub record Monitored (F : Type 0) : Type 0 where
  pub direction : Direction
  pub entry : F
  pub current_price : F
  pub current_stop : F
  pub take_profit_1 : F
  pub trailing_distance : F
  pub tp1_hit : Bool

module _ {F : Type 0} ⦃fl : Float F⦄ where
  abbrev update : MonitorAction → Option F → MonitorReason → PositionUpdate F
  update a s r = record { action = a; new_stop = s; reason = r }

  watch_long : Monitored F → PositionUpdate F
  watch_long p =
      if p.current_price <= p.current_stop
      then update close none stop_loss_hit
      else if not p.tp1_hit && (p.current_price >= p.take_profit_1)
      then update trail_stop (some (max p.current_stop p.entry)) tp1_hit_move_to_breakeven
      else if (p.current_price - p.trailing_distance) > p.current_stop
      then update trail_stop (some (p.current_price - p.trailing_distance)) trailing_up
      else update hold none nothing

  watch_other : Monitored F → PositionUpdate F
  watch_other p =
      if p.current_price >= p.current_stop
      then update close none stop_loss_hit
      else if not p.tp1_hit && (p.current_price <= p.take_profit_1)
      then update trail_stop (some (min p.current_stop p.entry)) tp1_hit_move_to_breakeven
      else if (p.current_price + p.trailing_distance) < p.current_stop
      then update trail_stop (some (p.current_price + p.trailing_distance)) trailing_down
      else update hold none nothing

  -- `if direction == "LONG"`, and all else in the other branch.
  watch : Direction → Monitored F → PositionUpdate F
  unfolding watch_long watch_other
  watch long p = watch_long p
  watch short p = watch_other p
  watch flat p = watch_other p

  unfoldable pub evaluate_position : Monitored F → PositionUpdate F
  unfolding watch
  evaluate_position p = watch p.direction p

  -- The stop that is in force after an update.
  abbrev pub stop_after : Monitored F → PositionUpdate F → F
  stop_after p u = or_else u.new_stop p.current_stop

  -- `tightens d old new`: the stop moved the way that protects a position of that direction, or stayed.
  abbrev pub Tightens : Direction → F → F → Type 0
  Tightens long old new = old ≼ new
  Tightens _ old new = new ≼ old

  watch-Tightens :
      IsIeee F
      → (d : Direction) (p : Monitored F) → IsNum p.current_stop
      → Tightens d p.current_stop (stop_after p (watch d p))
  unfolding watch
  watch-Tightens ieee long p h = ground (
    arith,
    le_max_left ieee p.current_stop p.entry h,
    le_of_lt ieee p.current_stop (p.current_price - p.trailing_distance),
  )
  watch-Tightens ieee short p h = ground (
    arith,
    min-le_left ieee p.current_stop p.entry h,
    le_of_lt ieee (p.current_price + p.trailing_distance) p.current_stop,
  )
  watch-Tightens ieee flat p h = ground (
    arith,
    min-le_left ieee p.current_stop p.entry h,
    le_of_lt ieee (p.current_price + p.trailing_distance) p.current_stop,
  )

  -- The monitor never loosens a stop that is a number: for a long position it only rises, for any
  -- other it only falls.
  pub evaluate_position-Tightens :
      IsIeee F
      → (p : Monitored F) → IsNum p.current_stop
      → Tightens p.direction p.current_stop (stop_after p (evaluate_position p))
  unfolding evaluate_position
  evaluate_position-Tightens ieee p h = watch-Tightens ieee p.direction p h
