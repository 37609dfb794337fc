-- ===== src/Agent/Safety.antt =====
-- What a tick of the agent may do to the outside world.
use neuravex.Prelude.{
  String, ◌≡◌, ◌≢◌, refl, ap, or_else, subst, sym, ◌∙◌, Bool, true, false, not, Option, none, some,
  List, arith, All, Bool-cases, inl, inr, if◌then◌else◌,
}
use neuravex.Float.{Float}
use neuravex.Risk.Limits.{RiskLimitBreach, PortfolioState, check_account_wide_limits}
use neuravex.Execution.Paper.{Side, buy, sell}
use neuravex.Agent.{
  AgentConfig, World, Agent, Effect, signal_saved, decision_saved, order_sent, order_saved,
  execution_queued, trade_recorded, event_saved, halt_noted, emit,
}
use neuravex.Agent.Orders.{is_phone, may_send}
use neuravex.Agent.Tick.{
  flatten_all_positions, guarded_tick, tick_on, run_tick, start_tick, is_drawdown,
}
use neuravex.Agent.Passes.{process_symbols-Holds, flatten_positions-Holds}
use neuravex.Agent.Effects.{is_order, CoversQuiet, CoversCloses, CoversEntries}

-- An order that the exchange was called with.
abbrev pub is_sent : {F : Type 0} → Effect F → Bool
is_sent (order_sent _ _ _) = true
is_sent _ = false

abbrev pub is_buy : Side → Bool
is_buy buy = true
is_buy sell = false

-- An order, sent or queued, that buys.
abbrev pub is_purchase : {F : Type 0} → Effect F → Bool
is_purchase (order_sent _ side _) = is_buy side
is_purchase (execution_queued _ o) = is_buy o.side
is_purchase _ = false

quiet_not_sent : {F : Type 0} (e : Effect F) → is_order e ≡ false → is_sent e ≡ false
quiet_not_sent (order_sent _ _ _) h = h
quiet_not_sent (signal_saved _) h = refl
quiet_not_sent (decision_saved _) h = refl
quiet_not_sent (order_saved _ _) h = refl
quiet_not_sent (execution_queued _ _) h = refl
quiet_not_sent (trade_recorded _ _ _) h = refl
quiet_not_sent (event_saved _) h = refl
quiet_not_sent halt_noted h = refl

quiet_not_purchase : {F : Type 0} (e : Effect F) → is_order e ≡ false → is_purchase e ≡ false
quiet_not_purchase (order_sent _ _ _) h = absurd (ground arith)
quiet_not_purchase (signal_saved _) h = refl
quiet_not_purchase (decision_saved _) h = refl
quiet_not_purchase (order_saved _ _) h = refl
quiet_not_purchase (execution_queued _ _) h = absurd (ground arith)
quiet_not_purchase (trade_recorded _ _ _) h = refl
quiet_not_purchase (event_saved _) h = refl
quiet_not_purchase halt_noted h = refl

module _ {F : Type 0} ⦃fl : Float F⦄ (w : World F) (cfg : AgentConfig F) where
  -- The breach that the account-wide check finds in a portfolio.
  abbrev pub breach_of : PortfolioState F → Option RiskLimitBreach
  breach_of s =
      check_account_wide_limits s cfg.max_daily_loss cfg.max_drawdown cfg.min_balance_floor

  abbrev pub flattens_on : Option RiskLimitBreach → Bool
  flattens_on none = false
  flattens_on (some b) = b.should_flatten

  module _ (P : Effect F → Type 0) (quiet : CoversQuiet w cfg P) where
    noted :
        (b : Bool) (a : Agent F)
        → All P a.history
        → All P (if b then emit halt_noted a else a).history
    noted true a h = (quiet _ refl, h)
    noted false a h = h

    guarded_tick-All :
        (a : Agent F) (breach : Option RiskLimitBreach)
        → (flattens_on breach ≡ true → CoversCloses w cfg P true)
        → (breach ≡ none → CoversCloses w cfg P (not cfg.dry_run) × CoversEntries w cfg P)
        → All P a.history
        → All P (guarded_tick w cfg a breach).1.history
    unfolding guarded_tick flatten_all_positions
    guarded_tick-All a none f g h =
        (process_symbols-Holds w cfg P quiet (g refl).0 (g refl).1 cfg.symbols _ h).all
    guarded_tick-All a (some breach) f g h =
        let after = noted (is_drawdown w cfg breach.limit) _ (quiet _ refl, h) in
        elim (Bool-cases breach.should_flatten) [
          | inl t ↦ rw t (flatten_positions-Holds w cfg P quiet (f t) _ _ after).all
          | inr t ↦ rw t after
        ]

    -- A property of effects holds of a whole tick, if the closes of a breach and the orders of a normal
    -- tick have it.
    start_tick-All :
        (names : List String) (found : Option (PortfolioState F))
        → ((s : PortfolioState F)
            → found ≡ some s
            → flattens_on (breach_of s) ≡ true
            → CoversCloses w cfg P true)
        → ((s : PortfolioState F)
            → found ≡ some s
            → breach_of s ≡ none
            → CoversCloses w cfg P (not cfg.dry_run) × CoversEntries w cfg P)
        → All P (start_tick w cfg names found).1
    unfolding start_tick tick_on
    start_tick-All names none f g = (quiet _ refl, tt)
    start_tick-All names (some s) f g = guarded_tick-All _ _ (f s refl) (g s refl) tt

    run_tick-All :
        (names : List String)
        → CoversCloses w cfg P true
        → CoversEntries w cfg P
        → All P (run_tick w cfg names).1
    unfolding run_tick
    run_tick-All names closes entries =
        start_tick-All names _ (λ s e t. closes)
          (λ s e t. ((λ on. closes.0 refl, λ on. closes.1 refl), entries))

  -- In phone mode the exchange is never called with an order, whatever else happens in the tick.
  pub run_tick-Phone :
      (names : List String)
      → is_phone cfg ≡ true
      → All (λ e. is_sent e ≡ false) (run_tick w cfg names).1
  run_tick-Phone names phone =
      run_tick-All (λ e. is_sent e ≡ false) quiet_not_sent names
        (λ on p id o s. refl, λ on p. absurd (ground arith))
        (λ on p id o. refl, λ on p. absurd (ground arith))

  -- Where the guard for live orders does not let the configured adapter and mode through, the exchange
  -- is never called with an order.
  pub run_tick-Guarded :
      (names : List String)
      → may_send w cfg ≡ false
      → All (λ e. is_sent e ≡ false) (run_tick w cfg names).1
  run_tick-Guarded names blocked =
      run_tick-All (λ e. is_sent e ≡ false) quiet_not_sent names
        (λ on p id o s. refl, λ on p m. absurd (ground arith))
        (λ on p id o. refl, λ on p m. absurd (ground arith))

  -- With AI trading switched off a tick buys nothing, and it sells only where the account-wide check
  -- calls for selling everything: without that there is no order at all.
  pub run_tick-DryRun :
      (names : List String)
      → cfg.dry_run ≡ true
      → All (λ e. is_purchase e ≡ false) (run_tick w cfg names).1
        × (((s : PortfolioState F)
              → w.get_portfolio_state ≡ some s
              → flattens_on (breach_of s) ≡ false)
            → All (λ e. is_order e ≡ false) (run_tick w cfg names).1)
  unfolding run_tick
  run_tick-DryRun names off = (
    run_tick-All (λ e. is_purchase e ≡ false) quiet_not_purchase names
        (λ on p id o s. rw s refl, λ on p m symbol q. refl)
        (λ on. absurd (ground arith), λ on. absurd (ground arith)),
    λ calm.
        start_tick-All (λ e. is_order e ≡ false) (λ e h. h) names _
          (λ s e t. absurd (ground (arith, calm s e)))
          (λ s e t. (
            (λ on. absurd (ground arith), λ on. absurd (ground arith)),
            (λ on. absurd (ground arith), λ on. absurd (ground arith)),
          )),
  )

  -- While an account-wide limit is breached nothing is bought.
  pub run_tick-Breach :
      (names : List String) (s : PortfolioState F)
      → w.get_portfolio_state ≡ some s
      → breach_of s ≢ none
      → All (λ e. is_purchase e ≡ false) (run_tick w cfg names).1
  unfolding run_tick
  run_tick-Breach names s found breached =
      start_tick-All (λ e. is_purchase e ≡ false) quiet_not_purchase names _
        (λ r e t. (λ on p id o s. rw s refl, λ on p m symbol q. refl))
        (λ r e t.
          absurd
            (breached (subst (λ q. breach_of q ≡ none) (ap (λ o. or_else o s) (sym e ∙ found)) t)))
