-- ===== src/Agent/Effects.antt =====
-- What a step of the agent adds to its effects: a property of effects that covers everything but
-- orders, and those orders that the configuration lets through, holds of all effects of a tick.
use neuravex.Prelude.{
  ℕ, String, ◌≡◌, refl, Bool, true, false, not, ◌&&◌, Option, none, some, arith, All, if◌then◌else◌,
  subst,
}
use neuravex.Float.{Float}
use neuravex.Risk.Plan.{Direction, long, short, flat, RiskPlan}
use neuravex.Risk.Sizing.{PositionSizeResult}
use neuravex.Execution.Paper.{Side, sell, OrderResult}
use neuravex.Decision.{Decision}
use neuravex.Decision.Reasons.{Reason}
use neuravex.Agent.{
  AgentConfig, Candle, World, Agent, Effect, PlannedOrder, order_sent, execution_queued, emit,
}
use neuravex.Agent.Entry.{Setup, breadth_plan, long_plan, plan_for, entry_refusal}
use neuravex.Agent.Orders.{
  is_phone, save_decision, may_send, send_order, release_position_in_state, reserve_entry_in_state,
  close_sent, close_saved, close_position, entry_sent, entry_saved, enter_position,
}
use neuravex.Agent.Process.{candle_close_time, quiet_after}

-- The two effects that may move money.
abbrev pub is_order : {F : Type 0} → Effect F → Bool
is_order (order_sent _ _ _) = true
is_order (execution_queued _ _) = true
is_order _ = false

module _ {F : Type 0} ⦃fl : Float F⦄ where
  -- The gates read; they change nothing but the breadth that they work out.
  pub plan_for_frame :
      (w : World F) (cfg : AgentConfig F) (s : Setup F) (d : Decision F) (direction : Direction)
      (a : Agent F)
      → ((plan_for w cfg s d direction a).1.history ≡ a.history)
        × ((plan_for w cfg s d direction a).1.state ≡ a.state)
  unfolding plan_for long_plan breadth_plan
  plan_for_frame w cfg s d long a =
      long_plan_frame (entry_refusal w cfg s d) cfg.entry_min_breadth cfg.entry_trend_ema
    where
      breadth_plan_frame :
          (least : F) (b : Option F)
          → ((breadth_plan w cfg s d a least b).1.history ≡ a.history)
            × ((breadth_plan w cfg s d a least b).1.state ≡ a.state)
      breadth_plan_frame least none = (refl, refl)
      breadth_plan_frame least (some b) = (refl, refl)

      long_plan_frame :
          (o : Option (Reason F)) (least : Option F) (trend : Option ℕ)
          → ((long_plan w cfg s d a o least trend).1.history ≡ a.history)
            × ((long_plan w cfg s d a o least trend).1.state ≡ a.state)
      long_plan_frame (some reason) least trend = (refl, refl)
      long_plan_frame none (some least) (some n) = breadth_plan_frame least _
      long_plan_frame none none trend = (refl, refl)
      long_plan_frame none (some _) none = (refl, refl)
  plan_for_frame w cfg s d short a = (refl, refl)
  plan_for_frame w cfg s d flat a = (refl, refl)

  pub quiet_after_frame :
      (w : World F) (cfg : AgentConfig F) (symbol : String) (c : Option (Candle F))
      (before a : Agent F)
      → quiet_after w cfg symbol c before ≡ some a
      → a.history ≡ before.history
  unfolding quiet_after candle_close_time
  quiet_after_frame w cfg symbol c before a e = ground arith

  module _ (w : World F) (cfg : AgentConfig F) (P : Effect F → Type 0) where
    -- Everything that is not an order has the property.
    abbrev pub CoversQuiet : Type 0
    CoversQuiet = (e : Effect F) → is_order e ≡ false → P e

    -- The sells that close a position have it, if `on` holds.
    abbrev pub CoversCloses : Bool → Type 0
    CoversCloses on =
        (on ≡ true
          → is_phone cfg ≡ true
          → (id : Option ℕ) (o : PlannedOrder F) → o.side ≡ sell
          → P (execution_queued id o))
        × (on ≡ true
            → is_phone cfg ≡ false
            → may_send w cfg ≡ true
            → (symbol : String) (q : F) → P (order_sent symbol sell q))

    -- The orders of an entry have it, if the agent is not in a dry run.
    abbrev pub CoversEntries : Type 0
    CoversEntries =
        (cfg.dry_run ≡ false
          → is_phone cfg ≡ true
          → (id : Option ℕ) (o : PlannedOrder F) → P (execution_queued id o))
        × (cfg.dry_run ≡ false
            → is_phone cfg ≡ false
            → may_send w cfg ≡ true
            → (symbol : String) (side : Side) (q : F) → P (order_sent symbol side q))

    -- All effects after a step have the property.
    pub record Holds {A : Type 0} (r : A × Agent F) : Type 0 where
      pub all : All P r.1.history

    module _ (quiet : CoversQuiet) where
      add :
          {A B : Type 0} {x : A} (y : B) {e : Effect F} {a : Agent F}
          → is_order e ≡ false
          → Holds (x, a)
          → Holds (y, emit e a)
      add y h k = record { all = (quiet _ h, k.all) }

      add_order :
          {A B : Type 0} {x : A} (y : B) {e : Effect F} {a : Agent F}
          → P e
          → Holds (x, a)
          → Holds (y, emit e a)
      add_order y h k = record { all = (h, k.all) }

      turn : {A B : Type 0} {x : A} (y : B) {a : Agent F} → Holds (x, a) → Holds (y, a)
      turn y k = record { all = k.all }

      pub if-Holds :
          {A : Type 0} (b : Bool) (x y : A × Agent F)
          → (b ≡ true → Holds x)
          → (b ≡ false → Holds y)
          → Holds (if b then x else y)
      if-Holds true x y h k = h refl
      if-Holds false x y h k = k refl

      pub save_decision-Holds :
          (d : Decision F) (a : Agent F) → All P a.history → Holds (save_decision w d a)
      unfolding save_decision
      save_decision-Holds d a h = record { all = (quiet _ refl, h) }

      send_order-Holds :
          (symbol : String) (side : Side) (q : F) (a : Agent F)
          → (may_send w cfg ≡ true → P (order_sent symbol side q))
          → All P a.history
          → Holds (send_order w cfg symbol side q a)
      unfolding send_order
      send_order-Holds symbol side q a p h =
          if-Holds (may_send w cfg) _ _ (λ t. record { all = (p t, h) }) (λ t. record { all = h })

      close_sent-Holds :
          (symbol : String) (d : Decision F) (r : Option (OrderResult F) × Agent F)
          → Holds r
          → Holds (close_sent w cfg symbol d r)
      unfolding close_sent release_position_in_state
      close_sent-Holds symbol d (none, a) h = record { all = h.all }
      close_sent-Holds symbol d (some result, a) h = record {
        all = (quiet _ refl, (quiet _ refl, h.all));
      }

      close_saved-Holds :
          (symbol : String) (q : F) (r : Decision F × Agent F)
          → CoversCloses true
          → Holds r
          → Holds (close_saved w cfg symbol q r)
      unfolding close_saved release_position_in_state
      close_saved-Holds symbol q (d, a) c h =
          if-Holds (is_phone cfg) _ _ (λ phone. record { all = (c.0 refl phone _ _ refl, h.all) })
            (λ server.
              close_sent-Holds symbol _ _
                (send_order-Holds symbol sell q _ (λ m. c.1 refl server m symbol q) h.all))

      pub close_position-Holds :
          (symbol : String) (q : F) (d : Decision F) (ignore : Bool) (a : Agent F)
          → CoversCloses (not (cfg.dry_run && not ignore))
          → All P a.history
          → Holds (close_position w cfg symbol q d ignore a)
      unfolding close_position
      close_position-Holds symbol q d ignore a c h =
          if-Holds (cfg.dry_run && not ignore) _ _ (λ off. record { all = h })
            (λ on.
              close_saved-Holds symbol q _ (subst (λ b. CoversCloses (not b)) on c)
                (save_decision-Holds d a h))

      entry_sent-Holds :
          (symbol : String) (q price : F) (d : Decision F) (r : Option (OrderResult F) × Agent F)
          → Holds r
          → Holds (entry_sent w cfg symbol q price d r)
      unfolding entry_sent reserve_entry_in_state
      entry_sent-Holds symbol q price d (none, a) h = record { all = h.all }
      entry_sent-Holds symbol q price d (some result, a) h = record { all = (quiet _ refl, h.all) }

      entry_saved-Holds :
          (symbol : String) (direction : Direction) (p : RiskPlan F) (size : PositionSizeResult F)
          (price : F) (r : Decision F × Agent F)
          → cfg.dry_run ≡ false
          → CoversEntries
          → Holds r
          → Holds (entry_saved w cfg symbol direction p size price r)
      unfolding entry_saved reserve_entry_in_state
      entry_saved-Holds symbol direction p size price (d, a) on c h =
          if-Holds (is_phone cfg) _ _ (λ phone. record { all = (c.0 on phone _ _, h.all) })
            (λ server.
              entry_sent-Holds symbol _ price _ _
                (send_order-Holds symbol _ _ _ (λ m. c.1 on server m symbol _ _) h.all))

      pub enter_position-Holds :
          (symbol : String) (direction : Direction) (p : RiskPlan F) (size : PositionSizeResult F)
          (price : F) (d : Decision F) (a : Agent F)
          → CoversEntries
          → All P a.history
          → Holds (enter_position w cfg symbol direction p size price d a)
      unfolding enter_position
      enter_position-Holds symbol direction p size price d a c h =
          if-Holds cfg.dry_run _ _ (λ off. record { all = h })
            (λ on.
              entry_saved-Holds symbol direction p size price _ on c (save_decision-Holds d a h))
