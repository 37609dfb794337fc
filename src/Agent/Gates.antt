-- ===== src/Agent/Gates.antt =====
-- What the gates of `_process_symbol` have checked when they end in an entry.
use neuravex.Prelude.{
  ℕ, ◌≡◌, ◌≢◌, refl, true, false, Option, none, some, arith, Bool-cases, inl, inr, any,
}
use neuravex.Float.{Float, ◌<=◌, ◌<◌, of_ℕ}
use neuravex.Risk.Plan.{
  Direction, long, short, flat, RiskPlan, Planned, plan, refused, build_risk_plan,
}
use neuravex.Risk.Sizing.{PositionSizeResult}
use neuravex.Risk.Limits.{OpenPosition, approved}
use neuravex.Execution.Paper.{buy}
use neuravex.Supervisor.{allows}
use neuravex.Decision.{Decision}
use neuravex.Decision.Reasons.{Reason}
use neuravex.Agent.{AgentConfig, World, Agent, regime_name}
use neuravex.Agent.Entry.{
  Setup, enter, breadth_plan, long_plan, short_plan, plan_for, close_plan, open_plan,
  supervised_plan, risk_plan_gates, sized, risk_check, entry_refusal, market_breadth,
}

module _ {F : Type 0} ⦃fl : Float F⦄ (w : World F) (cfg : AgentConfig F) (s : Setup F)
    (d : Decision F) where
  -- Where the settings give a least breadth of the market and a trend, it could be worked out and is
  -- wide enough.
  abbrev pub IsBroad : Option F → Option ℕ → Agent F → Type 0
  IsBroad (some least) (some n) a =
      (breadth : F) × (market_breadth w cfg a n ≡ some breadth) × ((breadth < least) ≡ false)
  IsBroad _ _ a = Unit

  -- What has been checked before an entry of a size.
  pub record IsChecked (direction : Direction) (a : Agent F) (size : PositionSizeResult F)
      : Type 0 where
    pub is_long : direction ≡ long
    pub gates : entry_refusal w cfg s d ≡ none
    pub broad : IsBroad cfg.entry_min_breadth cfg.entry_trend_ema a
    pub supervised :
        any
          (λ g. allows a.verdict g.strategy_name (regime_name s.regime.market_regime))
          d.contributing_signals
        ≡ true
    pub not_in_flight : w.has_pending_order a.history s.symbol buy ≡ false
    pub risk_approved : approved (risk_check w cfg s d a) ≡ true
    pub sized_above_zero : (size.quantity <= of_ℕ 0) ≡ false

  -- The parts of it that follow the risk plan.
  abbrev Passed : Agent F → PositionSizeResult F → Type 0
  Passed a size =
      (w.has_pending_order a.history s.symbol buy ≡ false)
      × (approved (risk_check w cfg s d a) ≡ true)
      × ((size.quantity <= of_ℕ 0) ≡ false)

  sized-above :
      (p q : RiskPlan F) (o : Option (PositionSizeResult F)) (size : PositionSizeResult F)
      → sized w cfg s d p o ≡ enter q size
      → (size.quantity <= of_ℕ 0) ≡ false
  unfolding sized
  sized-above p q none size e = ground arith
  sized-above p q (some r) size e = ground arith

  risk_plan_gates-Passed :
      (a : Agent F) (planned : Planned F) (q : RiskPlan F) (size : PositionSizeResult F)
      → risk_plan_gates w cfg s d long a planned ≡ enter q size
      → Passed a size
  unfolding risk_plan_gates
  risk_plan_gates-Passed a (refused _) q size e = ground arith
  risk_plan_gates-Passed a (plan p) q size e = ground (arith, sized-above p q _ size)

  supervised_plan-Passed :
      (a : Agent F) (q : RiskPlan F) (size : PositionSizeResult F)
      → supervised_plan w cfg s d a ≡ enter q size
      → (any
            (λ g. allows a.verdict g.strategy_name (regime_name s.regime.market_regime))
            d.contributing_signals
          ≡ true)
        × Passed a size
  unfolding supervised_plan open_plan
  supervised_plan-Passed a q size e = ground (arith, risk_plan_gates-Passed a _ q size)

  not_flat :
      (a : Agent F) (planned : Planned F) (q : RiskPlan F) (size : PositionSizeResult F)
      → risk_plan_gates w cfg s d short a planned ≢ enter q size
  unfolding risk_plan_gates
  not_flat a (refused _) q size e = ground arith
  not_flat a (plan p) q size e = ground arith

  short_plan_refuses :
      (a : Agent F) (held : Option (OpenPosition F)) (q : RiskPlan F) (size : PositionSizeResult F)
      → short_plan w cfg s d a held ≢ enter q size
  unfolding short_plan close_plan open_plan
  short_plan_refuses a none q size e = not_flat a _ q size e
  short_plan_refuses a (some held) q size e = ground arith

  flat_refuses :
      (a : Agent F) (q : RiskPlan F) (size : PositionSizeResult F)
      → open_plan w cfg s d flat a ≢ enter q size
  unfolding open_plan build_risk_plan risk_plan_gates
  flat_refuses a q size e = ground arith

  -- What is left of the checks once the gates of the symbol are passed.
  abbrev Supervised : Agent F → PositionSizeResult F → Type 0
  Supervised a size =
      (any (λ g. allows a.verdict g.strategy_name (regime_name s.regime.market_regime))
          d.contributing_signals
        ≡ true)
      × Passed a size

  breadth_plan-Passed :
      (a : Agent F) (least : F) (b : Option F) (q : RiskPlan F) (size : PositionSizeResult F)
      → (breadth_plan w cfg s d a least b).0 ≡ enter q size
      → ((breadth : F) × (b ≡ some breadth) × ((breadth < least) ≡ false)) × Supervised a size
  unfolding breadth_plan risk_check
  breadth_plan-Passed a least none q size e = ground arith
  breadth_plan-Passed a least (some b) q size e = elim (Bool-cases (b < least)) [
    | inl t ↦ absurd (ground arith)
    | inr t ↦
        ((b, refl, t), supervised_plan-Passed (record a { breadth = some b }) q size (ground arith))
  ]

  long_plan-Passed :
      (a : Agent F) (o : Option (Reason F)) (least : Option F) (trend : Option ℕ) (q : RiskPlan F)
      (size : PositionSizeResult F)
      → (long_plan w cfg s d a o least trend).0 ≡ enter q size
      → (o ≡ none) × IsBroad least trend a × Supervised a size
  unfolding long_plan
  long_plan-Passed a (some reason) least trend q size e = ground arith
  long_plan-Passed a none (some least) (some n) q size e =
      let passed = breadth_plan-Passed a least (market_breadth w cfg a n) q size e in
      (refl, passed.0, passed.1)
  long_plan-Passed a none none trend q size e = (refl, tt, supervised_plan-Passed a q size e)
  long_plan-Passed a none (some _) none q size e = (refl, tt, supervised_plan-Passed a q size e)

  -- An entry is planned only for a LONG, when every gate has been passed at the state of that moment:
  -- the gates of the symbol, the breadth of the market where the settings give a least one and a
  -- trend, the supervisor, no buy in flight, the risk engine, and a size above zero.
  pub plan_for-IsChecked :
      (direction : Direction) (a : Agent F) {q : RiskPlan F} {size : PositionSizeResult F}
      → (plan_for w cfg s d direction a).0 ≡ enter q size
      → IsChecked direction a size
  unfolding plan_for
  plan_for-IsChecked long a {q} {size} e =
      let passed =
        long_plan-Passed a (entry_refusal w cfg s d) cfg.entry_min_breadth cfg.entry_trend_ema q
          size e in
      record {
        is_long = refl;
        gates = passed.0;
        broad = passed.1;
        supervised = passed.2.0;
        not_in_flight = passed.2.1.0;
        risk_approved = passed.2.1.1;
        sized_above_zero = passed.2.1.2;
      }
  plan_for-IsChecked short a {q} {size} e = absurd (short_plan_refuses a _ q size e)
  plan_for-IsChecked flat a {q} {size} e = absurd (flat_refuses a q size e)
