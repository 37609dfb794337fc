-- ===== src/Agent/Orders.antt =====
-- How the agent executes: the two paths of an entry, `_close_position`, and how both keep the
-- portfolio of the tick up to date.
use neuravex.Prelude.{
  suc, String, Bool, true, false, not, ◌&&◌, Option, none, some, [], ◌∷◌, ◌++◌, str_eq,
  if◌then◌else◌, or_else,
}
use neuravex.Prelude.Dict.{get, insert, pop}
use neuravex.Float.{Float, ◌-◌, ◌*◌, of_ℕ, max}
use neuravex.Risk.Plan.{Direction, long, RiskPlan}
use neuravex.Risk.Sizing.{PositionSizeResult}
use neuravex.Risk.Limits.{OpenPosition}
use neuravex.Execution.LiveGuard.{assert_live_order_allowed}
use neuravex.Execution.Paper.{Side, buy, sell, OrderResult}
use neuravex.Decision.{Decision}
use neuravex.Decision.Reasons.{Reason, would_trade, would_close}
use neuravex.Agent.{
  AgentConfig, World, Agent, PlannedOrder, Outcome, value, raised, emit, decision_saved, order_sent,
  order_saved, execution_queued, trade_recorded,
}

-- `self.config.execution_mode == "phone"`
abbrev pub is_phone : {F : Type 0} → AgentConfig F → Bool
is_phone cfg = str_eq cfg.execution_mode "phone"

module _ {F : Type 0} where
  -- `decision.reasons_for.append(reason)`
  abbrev pub argue_for : Reason F → Decision F → Decision F
  argue_for reason d = record d { reasons_for = d.reasons_for ++ reason ∷ [] }

  -- `store.save_decision`: an id is given once; it is returned with the decision that carries it.
  unfoldable pub save_decision : World F → Decision F → Agent F → Decision F × Agent F
  save_decision w d a =
      let saved = record d { id = some (or_else d.id (w.new_decision_id a.history)) } in
      (saved, emit (decision_saved saved) a)

  -- assert_live_order_allowed for the configured mode: `true` is a return.
  unfoldable pub may_send : World F → AgentConfig F → Bool
  may_send w cfg =
      elim (assert_live_order_allowed w.adapter cfg.trading_mode cfg.allow_live_flag
        (str_eq cfg.trading_mode "live")) [ none ↦ true | some _ ↦ false ]

  -- The call of the exchange, with what it answers.
  unfoldable pub send_order :
      World F → AgentConfig F → String → Side → F → Agent F → Option (OrderResult F) × Agent F
  send_order w cfg symbol side quantity a =
      if may_send w cfg
      then (w.create_order a.history symbol side quantity, emit (order_sent symbol side quantity) a)
      else (none, a)

  -- `_release_position_in_state`
  unfoldable pub release_position_in_state : World F → String → Agent F → Agent F
  release_position_in_state w symbol a = record a {
    state = record a.state {
      open_positions = pop symbol a.state.open_positions;
      last_signal_time_by_symbol =
          insert symbol (w.clock a.history) a.state.last_signal_time_by_symbol;
    };
  }

  abbrev executed : Decision F → Decision F
  executed d = record d { executed = true }

  abbrev entry_price_of : Option (OpenPosition F) → Option F
  entry_price_of none = none
  entry_price_of (some p) = some p.entry_price

module _ {F : Type 0} ⦃fl : Float F⦄ where
  -- `_reserve_entry_in_state`
  unfoldable pub reserve_entry_in_state : World F → String → F → F → Agent F → Agent F
  reserve_entry_in_state w symbol quantity entry_price a =
      let now = w.clock a.history in
      let notional = quantity * entry_price in
      record a {
        state = record a.state {
          open_positions =
              insert symbol
                (record { notional = notional; quantity = quantity; entry_price = entry_price })
                a.state.open_positions;
          cash = max (of_ℕ 0) (a.state.cash - notional);
          trades_this_hour = suc a.state.trades_this_hour;
          last_entry_time = some now;
          last_signal_time_by_symbol = insert symbol now a.state.last_signal_time_by_symbol;
        };
      }

  module _ (w : World F) (cfg : AgentConfig F) where
    planned_close : String → F → Option F → Decision F → PlannedOrder F
    planned_close symbol quantity price d = record {
      symbol = symbol;
      side = sell;
      quantity = quantity;
      limit_price = price;
      stop_loss = of_ℕ 0;
      take_profit_1 = of_ℕ 0;
      take_profit_2 = of_ℕ 0;
      confidence = d.confidence;
      reasons_for = d.reasons_for;
      reasons_against = d.reasons_against;
    }

    -- The end of a direct sale.
    unfoldable pub close_sent :
        String → Decision F → Option (OrderResult F) × Agent F → Outcome (Decision F) × Agent F
    close_sent symbol d (none, a) = (raised d, a)
    close_sent symbol d (some result, a) = (
      value (executed d),
      release_position_in_state w symbol (
          emit (trade_recorded symbol (entry_price_of (get symbol a.state.open_positions)) result)
            (emit (order_saved result d.id) a)),
    )

    unfoldable pub close_saved : String → F → Decision F × Agent F → Outcome (Decision F) × Agent F
    unfolding close_sent planned_close
    close_saved symbol quantity (d, a) =
        if is_phone cfg
        then (
          value (executed d),
          release_position_in_state w symbol (
              emit
                (execution_queued d.id
                  (planned_close symbol quantity (w.reference_price a.history symbol) d))
                a),
        )
        else close_sent symbol d (send_order w cfg symbol sell quantity a)

    -- `_close_position`
    unfoldable pub close_position :
        String → F → Decision F → Bool → Agent F → Outcome (Decision F) × Agent F
    unfolding close_saved
    close_position symbol quantity d ignore_dry_run a =
        if cfg.dry_run && not ignore_dry_run
        then (value (argue_for (would_close quantity) d), a)
        else close_saved symbol quantity (save_decision w d a)

    abbrev pub side_of : Direction → Side
    side_of long = buy
    side_of _ = sell

    planned_entry :
        String → Direction → RiskPlan F → PositionSizeResult F → F → Decision F → PlannedOrder F
    planned_entry symbol direction p size price d = record {
      symbol = symbol;
      side = side_of direction;
      quantity = size.quantity;
      limit_price = some price;
      stop_loss = p.stop_loss;
      take_profit_1 = p.take_profit_1;
      take_profit_2 = p.take_profit_2;
      confidence = d.confidence;
      reasons_for = d.reasons_for;
      reasons_against = d.reasons_against;
    }

    unfoldable pub entry_sent :
        String
        → F
        → F
        → Decision F
        → Option (OrderResult F) × Agent F
        → Outcome (Decision F) × Agent F
    entry_sent symbol quantity price d (none, a) = (raised d, a)
    entry_sent symbol quantity price d (some result, a) = (
      value (executed d),
      reserve_entry_in_state w symbol quantity price (emit (order_saved result d.id) a),
    )

    unfoldable pub entry_saved :
        String
        → Direction
        → RiskPlan F
        → PositionSizeResult F
        → F
        → Decision F × Agent F
        → Outcome (Decision F) × Agent F
    unfolding entry_sent planned_entry
    entry_saved symbol direction p size price (d, a) =
        if is_phone cfg
        then (
          value (executed d),
          reserve_entry_in_state w symbol size.quantity price
              (emit (execution_queued d.id (planned_entry symbol direction p size price d)) a),
        )
        else entry_sent symbol size.quantity price d
            (send_order w cfg symbol (side_of direction) size.quantity a)

    -- The end of `_process_symbol`: an entry at a risk plan and a size.
    unfoldable pub enter_position :
        String
        → Direction
        → RiskPlan F
        → PositionSizeResult F
        → F
        → Decision F
        → Agent F
        → Outcome (Decision F) × Agent F
    unfolding entry_saved
    enter_position symbol direction p size price d a =
        if cfg.dry_run
        then (value (argue_for (would_trade size.quantity p.entry p.stop_loss) d), a)
        else entry_saved symbol direction p size price (save_decision w d a)
