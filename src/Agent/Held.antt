-- ===== src/Agent/Held.antt =====
-- The open positions in the agent's book, against the orders that the agent has given.
use Prim.Native.Nat.{◌+◌}
use neuravex.Prelude.{
  ℕ, [], ◌∷◌, ◌∙◌, Option-cases, suc, String, ◌≤◌, ◌≡◌, refl, Bool, true, false, not, ◌&&◌, arith,
  Bool-cases, inl, inr, if◌then◌else◌, length,
}
use neuravex.Prelude.Dict.{contains, insert, length-insert, length-pop-le, length-pop-ge}
use neuravex.Float.{Float}
use neuravex.Risk.Plan.{Direction, long, RiskPlan}
use neuravex.Risk.Sizing.{PositionSizeResult}
use neuravex.Execution.Paper.{Side, buy, sell}
use neuravex.Execution.Pending.{same_side}
use neuravex.Risk.Limits.{OpenPosition}
use neuravex.Decision.{Decision}
use neuravex.Decision.Reasons.{would_close}
use neuravex.Agent.{
  AgentConfig, World, Agent, Outcome, Effect, History, value, raised, order_sent, order_saved,
  execution_queued,
}
use neuravex.Agent.Entry.{Setup, Plan, refuse, close_held, enter, failed}
use neuravex.Agent.Orders.{
  argue_for, is_phone, save_decision, may_send, send_order, release_position_in_state,
  reserve_entry_in_state, close_sent, close_saved, close_position, entry_sent, entry_saved,
  enter_position,
}
use neuravex.Agent.Process.{processed, carry_out}

module _ {F : Type 0} where
  -- The number of open positions, as the agent knows them.
  abbrev pub held : Agent F → ℕ
  held a = length a.state.open_positions

  -- An order of a side that went out: queued for the phone, or sent and then saved with its result.
  abbrev pub is_given : Side → Effect F → History F → Bool
  is_given side (execution_queued _ order) h = same_side side order.side
  is_given side (order_saved _ _) (order_sent _ sent _ ∷ h) = same_side side sent
  is_given side _ _ = false

  -- How many of them there are.
  abbrev pub given : Side → History F → ℕ
  given side [] = 0
  given side (e ∷ h) = if is_given side e h then suc (given side h) else given side h

module _ {F : Type 0} ⦃fl : Float F⦄ (w : World F) (cfg : AgentConfig F) (n base : ℕ) where
  -- No more than `n` positions in the book, and every purchase counted there.
  abbrev pub Fits : Agent F → Type 0
  Fits a = (held a ≤ n) × (base + given buy a.history ≤ held a + given sell a.history)

  -- There is room for an entry in a symbol that is not held.
  abbrev pub HasRoom : String → Agent F → Type 0
  HasRoom symbol a = (suc (held a) ≤ n) × (contains symbol a.state.open_positions ≡ false)

  pub record Within {A : Type 0} (r : A × Agent F) : Type 0 where
    pub fits : Fits r.1

  pub if-Within :
      {A : Type 0} (b : Bool) (x y : A × Agent F)
      → (b ≡ true → Within x)
      → (b ≡ false → Within y)
      → Within (if b then x else y)
  if-Within true x y h k = h refl
  if-Within false x y h k = k refl

  pub save_decision-Within : (d : Decision F) (a : Agent F) → Fits a → Within (save_decision w d a)
  unfolding save_decision
  save_decision-Within d a h = record { fits = h }

  -- A sale that went out, and the position that leaves the book for it.
  release-Fits :
      (symbol : String) (a b : Agent F)
      → Fits a
      → b.state ≡ a.state
      → given buy b.history ≡ given buy a.history
      → given sell b.history ≡ suc (given sell a.history)
      → Fits (release_position_in_state w symbol b)
  unfolding release_position_in_state
  release-Fits symbol a b h state bought sold =
      rw (state, bought, sold)
        (
          omega (arith, h.0, length-pop-le symbol a.state.open_positions),
          omega (arith, h.1, length-pop-ge symbol a.state.open_positions),
        )

  close_sent-Within :
      (symbol : String) (q : F) (d : Decision F) (a : Agent F)
      → Fits a
      → Within (close_sent w cfg symbol d (send_order w cfg symbol sell q a))
  unfolding close_sent send_order
  close_sent-Within symbol q d a h = elim (Bool-cases (may_send w cfg)) [
    | inl t ↦ elim (Option-cases (w.create_order a.history symbol sell q)) [
      | inl e ↦ rw (t, e) (record { fits = h })
      | inr (result, e) ↦ rw (t, e) (record { fits = release-Fits symbol a _ h refl refl refl })
    ]
    | inr t ↦ rw t (record { fits = h })
  ]

  close_saved-Within :
      (symbol : String) (q : F) (r : Decision F × Agent F)
      → Within r
      → Within (close_saved w cfg symbol q r)
  unfolding close_saved
  close_saved-Within symbol q (d, a) h =
      if-Within (is_phone cfg) _ _
        (λ phone. record { fits = release-Fits symbol a _ h.fits refl refl refl })
        (λ server. close_sent-Within symbol q d a h.fits)

  pub close_position-Within :
      (symbol : String) (q : F) (d : Decision F) (ignore : Bool) (a : Agent F)
      → Fits a
      → Within (close_position w cfg symbol q d ignore a)
  unfolding close_position
  close_position-Within symbol q d ignore a h =
      if-Within (cfg.dry_run && not ignore) (value (argue_for (would_close q) d), a) _
        (λ off. record { fits = h })
        (λ on. close_saved-Within symbol q _ (save_decision-Within d a h))

  -- A purchase that went out, and the position that the book gains for it.
  reserve-Fits :
      (symbol : String) (q price : F) (a b : Agent F)
      → Fits a
      → HasRoom symbol a
      → b.state ≡ a.state
      → given buy b.history ≡ suc (given buy a.history)
      → given sell b.history ≡ given sell a.history
      → Fits (reserve_entry_in_state w symbol q price b)
  unfolding reserve_entry_in_state
  reserve-Fits symbol q price a b h room state bought sold =
      let grown : (p : OpenPosition F)
          → length (insert symbol p a.state.open_positions) ≡ suc (held a) =
        λ p. length-insert symbol p a.state.open_positions ∙ rw room.1 refl in
      rw (state, bought, sold, grown _) (omega (arith, room.0), omega (arith, h.1))

  entry_sent-Within :
      (symbol : String) (q price : F) (d : Decision F) (a : Agent F)
      → Fits a
      → HasRoom symbol a
      → Within (entry_sent w cfg symbol q price d (send_order w cfg symbol buy q a))
  unfolding entry_sent send_order
  entry_sent-Within symbol q price d a h room = elim (Bool-cases (may_send w cfg)) [
    | inl t ↦ elim (Option-cases (w.create_order a.history symbol buy q)) [
      | inl e ↦ rw (t, e) (record { fits = h })
      | inr (result, e) ↦
          rw (t, e) (record { fits = reserve-Fits symbol q price a _ h room refl refl refl })
    ]
    | inr t ↦ rw t (record { fits = h })
  ]

  entry_saved-Within :
      (symbol : String) (p : RiskPlan F) (size : PositionSizeResult F) (price : F)
      (r : Decision F × Agent F)
      → Fits r.1
      → HasRoom symbol r.1
      → Within (entry_saved w cfg symbol long p size price r)
  unfolding entry_saved
  entry_saved-Within symbol p size price (d, a) h room =
      if-Within (is_phone cfg) _ _
        (λ phone. record {
          fits = reserve-Fits symbol size.quantity price a _ h room refl refl refl;
        })
        (λ server. entry_sent-Within symbol size.quantity price d a h room)

  enter_position-Within :
      (symbol : String) (p : RiskPlan F) (size : PositionSizeResult F) (price : F) (d : Decision F)
      (a : Agent F)
      → Fits a
      → HasRoom symbol a
      → Within (enter_position w cfg symbol long p size price d a)
  unfolding enter_position save_decision
  enter_position-Within symbol p size price d a h room =
      if-Within cfg.dry_run _ _ (λ off. record { fits = h })
        (λ on. entry_saved-Within symbol p size price (save_decision w d a) h room)

  processed-Within : (r : Outcome (Decision F) × Agent F) → Within r → Within (processed w cfg r)
  processed-Within (value d, a) h = record { fits = h.fits }
  processed-Within (raised d, a) h = record { fits = h.fits }

  pub carry_out-Within :
      (s : Setup F) (direction : Direction) (d : Decision F) (r : Plan F × Agent F)
      → Fits r.1
      → ((q : RiskPlan F) (size : PositionSizeResult F)
          → r.0 ≡ enter q size
          → (direction ≡ long) × HasRoom s.symbol r.1)
      → Within (carry_out w cfg s direction d r)
  unfolding carry_out
  carry_out-Within s direction d (refuse reason, a) h k = record { fits = h }
  carry_out-Within s direction d (failed, a) h k = record { fits = h }
  carry_out-Within s direction d (close_held q, a) h k =
      processed-Within _ (close_position-Within s.symbol q _ false a h)
  carry_out-Within s direction d (enter p size, a) h k =
      let (is_long, room) = k p size refl in
      rw is_long (processed-Within _ (enter_position-Within s.symbol p size s.price d a h room))
