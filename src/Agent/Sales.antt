-- ===== src/Agent/Sales.antt =====
-- What the gates of `_process_symbol` have checked when they end in a sale.
use neuravex.Prelude.{ℕ, ◌≡◌, refl, false, Option, none, some, arith, Bool-cases, inl, inr}
use neuravex.Prelude.Dict.{get}
use neuravex.Float.{Float, ◌<=◌, ◌<◌, of_ℕ}
use neuravex.Risk.Plan.{Direction, long, short, flat, RiskPlan, Planned, plan, refused}
use neuravex.Risk.Sizing.{PositionSizeResult}
use neuravex.Risk.Limits.{OpenPosition}
use neuravex.Execution.Paper.{sell}
use neuravex.Decision.{Decision}
use neuravex.Decision.Reasons.{Reason}
use neuravex.Agent.{AgentConfig, World, Agent}
use neuravex.Agent.Entry.{
  Setup, Plan, close_held, breadth_plan, long_plan, short_plan, plan_for, close_plan, open_plan,
  supervised_plan, risk_plan_gates, sized,
}

-- The quantity that a plan sells.
abbrev sold : {F : Type 0} → Plan F → Option F
sold (close_held q) = some q
sold _ = none

module _ {F : Type 0} ⦃fl : Float F⦄ (w : World F) (cfg : AgentConfig F) (s : Setup F)
    (d : Decision F) where
  sized-sold :
      (p : RiskPlan F) (o : Option (PositionSizeResult F)) → sold (sized w cfg s d p o) ≡ none
  unfolding sized
  sized-sold p none = refl
  sized-sold p (some r) = ground arith

  risk_plan_gates-sold :
      (direction : Direction) (a : Agent F) (planned : Planned F)
      → sold (risk_plan_gates w cfg s d direction a planned) ≡ none
  unfolding risk_plan_gates
  risk_plan_gates-sold direction a (refused _) = ground arith
  risk_plan_gates-sold long a (plan p) = ground (arith, sized-sold p _)
  risk_plan_gates-sold short a (plan p) = ground arith
  risk_plan_gates-sold flat a (plan p) = ground (arith, sized-sold p _)

  open_plan-sold :
      (direction : Direction) (a : Agent F) → sold (open_plan w cfg s d direction a) ≡ none
  unfolding open_plan
  open_plan-sold direction a = risk_plan_gates-sold direction a _

  supervised_plan-sold : (a : Agent F) → sold (supervised_plan w cfg s d a) ≡ none
  unfolding supervised_plan
  supervised_plan-sold a = ground (arith, open_plan-sold long a)

  breadth_plan-sold :
      (a : Agent F) (least : F) (b : Option F) → sold (breadth_plan w cfg s d a least b).0 ≡ none
  unfolding breadth_plan
  breadth_plan-sold a least none = refl
  breadth_plan-sold a least (some b) = elim (Bool-cases (b < least)) [
    | inl t ↦ rw t refl
    | inr t ↦ rw t (supervised_plan-sold (record a { breadth = some b }))
  ]

  long_plan-sold :
      (a : Agent F) (o : Option (Reason F)) (least : Option F) (trend : Option ℕ)
      → sold (long_plan w cfg s d a o least trend).0 ≡ none
  unfolding long_plan
  long_plan-sold a (some reason) least trend = refl
  long_plan-sold a none (some least) (some n) = breadth_plan-sold a least _
  long_plan-sold a none none trend = supervised_plan-sold a
  long_plan-sold a none (some _) none = supervised_plan-sold a

  close_plan-sold :
      (a : Agent F) (held : OpenPosition F) (quantity : F)
      → close_plan w cfg s d a held ≡ close_held quantity
      → (quantity ≡ held.quantity)
        × ((quantity <= of_ℕ 0) ≡ false)
        × (w.has_pending_order a.history s.symbol sell ≡ false)
  unfolding close_plan
  close_plan-sold a held quantity e = ground arith

  clash : {A : Type 0} (p : Plan F) (quantity : F) → sold p ≡ none → p ≡ close_held quantity → A
  clash p quantity h e = absurd (ground arith)

  short_plan-sold :
      (a : Agent F) (found : Option (OpenPosition F)) (quantity : F)
      → short_plan w cfg s d a found ≡ close_held quantity
      → ((position : OpenPosition F) × (found ≡ some position) × (quantity ≡ position.quantity))
        × ((quantity <= of_ℕ 0) ≡ false)
        × (w.has_pending_order a.history s.symbol sell ≡ false)
  unfolding short_plan
  short_plan-sold a none quantity e = clash _ quantity (open_plan-sold short a) e
  short_plan-sold a (some held) quantity e =
      let parts = close_plan-sold a held quantity e in ((held, refl, parts.0), parts.1, parts.2)

  -- A sale is planned only for a SHORT on a held symbol: it sells all of what is held, which is more
  -- than nothing, and no other sale of the symbol is in flight.
  pub plan_for-SellsHeld :
      (direction : Direction) (a : Agent F) {quantity : F}
      → (plan_for w cfg s d direction a).0 ≡ close_held quantity
      → (direction ≡ short)
        × ((position : OpenPosition F) × (get s.symbol a.state.open_positions ≡ some position)
            × (quantity ≡ position.quantity))
        × ((quantity <= of_ℕ 0) ≡ false)
        × (w.has_pending_order a.history s.symbol sell ≡ false)
  unfolding plan_for
  plan_for-SellsHeld long a {quantity} e = clash _ quantity (long_plan-sold a _ _ _) e
  plan_for-SellsHeld short a {quantity} e =
      let parts = short_plan-sold a _ quantity e in (refl, parts.0, parts.1, parts.2)
  plan_for-SellsHeld flat a {quantity} e = clash _ quantity (open_plan-sold flat a) e
