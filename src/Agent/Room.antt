-- ===== src/Agent/Room.antt =====
-- How many positions the agent holds in the course of a tick, and which purchases it has counted.
use Prim.Native.Nat.{◌+◌}
use neuravex.Prelude.{
  ℕ, suc, String, ◌≤◌, ◌≡◌, refl, true, false, not, ◌||◌, Option, none, some, List, [], ◌∷◌, arith,
  Bool-cases, Option-cases, inl, inr, length, ltb, last?, or_else,
}
use neuravex.Prelude.Dict.{Dict, contains}
use neuravex.Float.{Float, ◌<=◌, of_ℕ}
use neuravex.Market.Regime.{RegimeReading}
use neuravex.Risk.Plan.{Direction, long, flat, RiskPlan}
use neuravex.Risk.Sizing.{PositionSizeResult}
use neuravex.Risk.Limits.{OpenPosition, RiskLimitBreach, approved}
use neuravex.Risk.Limits.Trade.{check_trade_against_limits-approved}
use neuravex.Execution.Paper.{buy, sell}
use neuravex.Strategies.Signal.{Ohlcv, StrategySignal}
use neuravex.Decision.{Decision}
use neuravex.Agent.{AgentConfig, Candle, World, Agent, Outcome, value, raised, emit, signal_saved}
use neuravex.Agent.Entry.{Setup, enter, plan_for, counted_candles, risk_check}
use neuravex.Agent.Orders.{save_decision}
use neuravex.Agent.Process.{
  Processed, nothing, decided, exception, regime_params, candle_close_time, quiet_after, is_quiet,
  is_no_trade, gather_signals, act_on, decide, analyse, with_candles, fetched_candles,
  process_symbol,
}
use neuravex.Agent.Tick.{
  flatten_decision, flattened_one, flatten_positions, flatten_all_positions, recorded,
  process_symbols, is_drawdown, guarded_tick, tick_on,
}
use neuravex.Agent.Effects.{plan_for_frame, quiet_after_frame}
use neuravex.Agent.Gates.{plan_for-IsChecked}
use neuravex.Agent.Held.{
  held, given, Fits, HasRoom, Within, if-Within, save_decision-Within, close_position-Within,
  carry_out-Within,
}

module _ {F : Type 0} ⦃fl : Float F⦄ (w : World F) (cfg : AgentConfig F) (n base : ℕ) where
  abbrev InBook : Agent F → Type 0
  InBook a = Fits w cfg n base a

  gather_signals-InBook :
      (strategies : List (String → Ohlcv F → RegimeReading F → Option (StrategySignal F)))
      (s : Setup F) (a : Agent F)
      → InBook a
      → InBook (gather_signals strategies s a).1
  unfolding gather_signals
  gather_signals-InBook [] s a h = h
  gather_signals-InBook (strategy ∷ rest) s a h =
      elim (Option-cases (strategy s.symbol s.ohlcv s.regime)) [
        | inl e ↦ rw (gather_signals, e) (gather_signals-InBook rest s a h)
        | inr (signal, e) ↦
            rw (gather_signals, e)
              (elim (Bool-cases (is_quiet s.symbol a)) [
                | inl t ↦ rw t (gather_signals-InBook rest s a h)
                | inr t ↦ rw t (gather_signals-InBook rest s (emit (signal_saved signal) a) h)
              ])
      ]

  quiet_after-state :
      (symbol : String) (c : Option (Candle F)) (before a : Agent F)
      → quiet_after w cfg symbol c before ≡ some a
      → a.state ≡ before.state
  unfolding quiet_after candle_close_time
  quiet_after-state symbol c before a e = ground arith

  quiet_after-InBook :
      (symbol : String) (c : Option (Candle F)) (before a : Agent F)
      → InBook before
      → quiet_after w cfg symbol c before ≡ some a
      → InBook a
  quiet_after-InBook symbol c before a h e =
      rw (quiet_after-state symbol c before a e, quiet_after_frame w cfg symbol c before a e) h

  approval :
      (s : Setup F) (d : Decision F) (a : Agent F)
      → approved (risk_check w cfg s d a) ≡ true
      → (suc (held a) ≤ cfg.limits.max_open_positions)
        × (contains s.symbol a.state.open_positions ≡ false)
  unfolding risk_check
  approval s d a h =
      let passed =
        (check_trade_against_limits-approved s.symbol _ a.state cfg.limits s.correlated _).0 h in
      (passed.room_for_one, passed.not_open)

  module _ (limit : cfg.limits.max_open_positions ≤ n) where
    -- An entry was approved, so there is room for it.
    act_on-Within :
        (s : Setup F) (d : Decision F) (a : Agent F) (closed : Option ℕ)
        → InBook a
        → Within w cfg n base (act_on w cfg s d a closed)
    unfolding act_on
    act_on-Within s d a (some closed) h = record { fits = h }
    act_on-Within s d a none h =
        let direction = or_else d.direction flat in
        let (kept, same) = plan_for_frame w cfg s d direction a in
        carry_out-Within w cfg n base s direction d (plan_for w cfg s d direction a)
          (rw (same, kept) h) (λ q size e. rw same (room q size direction e))
      where
        room :
            (q : RiskPlan F) (size : PositionSizeResult F) (direction : Direction)
            → (plan_for w cfg s d direction a).0 ≡ enter q size
            → (direction ≡ long) × HasRoom w cfg n base s.symbol a
        room q size direction e =
            let checked = plan_for-IsChecked w cfg s d direction a e in
            let (one, fresh) = approval s d a checked.risk_approved in
            (checked.is_long, (omega (arith, limit, one), fresh))

    decide-Within :
        (s : Setup F) (closed : Option ℕ) (a : Agent F) (scored : Option (Decision F))
        → InBook a
        → Within w cfg n base (decide w cfg s closed a scored)
    unfolding decide
    decide-Within s closed a none h = record { fits = h }
    decide-Within s closed a (some scored) h = elim (Bool-cases (is_no_trade scored.action)) [
      | inl t ↦ rw t (record { fits = h })
      | inr t ↦ rw t (act_on-Within s _ a _ h)
    ]

    analyse-Within :
        (s : Setup F) (last : Option (Candle F)) (before : Agent F) (o : Option (Agent F))
        → InBook before
        → ((a : Agent F) → o ≡ some a → InBook a)
        → Within w cfg n base (analyse w cfg s last before o)
    unfolding analyse
    analyse-Within s last before none h k = record { fits = h }
    analyse-Within s last before (some a) h k =
        decide-Within s _ _ _ (gather_signals-InBook w.strategies s a (k a refl))

    with_candles-Within :
        (symbol : String) (price : F) (a : Agent F) (o : Option (List (Candle F)))
        → InBook a
        → Within w cfg n base (with_candles w cfg symbol price a o)
    unfolding with_candles
    with_candles-Within symbol price a none h = record { fits = h }
    with_candles-Within symbol price a (some cs) h =
        if-Within w cfg n base (ltb (length cs) 60) _ _ (λ t. record { fits = h })
          (λ t. elim (Option-cases (regime_params cfg)) [
            | inl e ↦ rw e (record { fits = h })
            | inr (params, e) ↦
                rw e (analyse-Within _ _ a _ h (λ b. quiet_after-InBook symbol (last? cs) a b h))
          ])

    fetched_candles-Within :
        (symbol : String) (a : Agent F) (o : Option (List (Candle F)))
        → InBook a
        → Within w cfg n base (fetched_candles w cfg symbol a o)
    unfolding fetched_candles
    fetched_candles-Within symbol a none h = record { fits = h }
    fetched_candles-Within symbol a (some cs) h = elim (Option-cases (last? cs)) [
      | inl e ↦ rw (fetched_candles, e) (record { fits = h })
      | inr (c, e) ↦
          rw (fetched_candles, e)
            (with_candles-Within symbol c.close a (counted_candles w cfg a.history cs) h)
    ]

    recorded-Within :
        (symbol : String) (r : Processed F × Agent F)
        → Within w cfg n base r
        → Within w cfg n base (recorded w cfg symbol r)
    unfolding recorded
    recorded-Within symbol (nothing, a) h = record { fits = h.fits }
    recorded-Within symbol (exception, a) h = record { fits = h.fits }
    recorded-Within symbol (decided d, a) h =
        if-Within w cfg n base (not (is_no_trade d.action) || not (is_quiet symbol a))
          ((save_decision w d a).0 ∷ [], (save_decision w d a).1) (d ∷ [], a)
          (λ t. record { fits = (save_decision-Within w cfg n base d a h.fits).fits })
          (λ t. record { fits = h.fits })

    process_symbols-Within :
        (symbols : List String) (a : Agent F)
        → InBook a
        → Within w cfg n base (process_symbols w cfg symbols a)
    unfolding process_symbols process_symbol
    process_symbols-Within [] a h = record { fits = h }
    process_symbols-Within (symbol ∷ symbols) a h = record {
      fits =
          (process_symbols-Within symbols _
            (recorded-Within symbol _
              (fetched_candles-Within symbol a (w.get_candles a.history symbol) h)).fits).fits;
    }

    flattened_one-Within :
        (r : Outcome (Decision F) × Agent F)
        → Within w cfg n base r
        → Within w cfg n base (flattened_one w cfg r)
    unfolding flattened_one
    flattened_one-Within (value d, a) h = save_decision-Within w cfg n base d a h.fits
    flattened_one-Within (raised d, a) h = save_decision-Within w cfg n base _ _ h.fits

    flatten_positions-Within :
        (open_positions : Dict (OpenPosition F)) (a : Agent F)
        → InBook a
        → Within w cfg n base (flatten_positions w cfg true open_positions a)
    unfolding flatten_positions
    flatten_positions-Within [] a h = record { fits = h }
    flatten_positions-Within ((symbol, p) ∷ rest) a h =
        elim (Bool-cases ((p.quantity <= of_ℕ 0) || w.has_pending_order a.history symbol sell)) [
          | inl t ↦ rw (flatten_positions, t) (flatten_positions-Within rest a h)
          | inr t ↦
              let sale =
                close_position-Within w cfg n base symbol p.quantity
                  (flatten_decision w cfg symbol p.quantity) true a h in
              rw (flatten_positions, t)
                (record {
                  fits = (flatten_positions-Within rest _ (flattened_one-Within _ sale).fits).fits;
                })
        ]

    guarded_tick-Within :
        (a : Agent F) (breach : Option RiskLimitBreach)
        → InBook a
        → Within w cfg n base (guarded_tick w cfg a breach)
    unfolding guarded_tick flatten_all_positions
    guarded_tick-Within a none h = process_symbols-Within cfg.symbols _ h
    guarded_tick-Within a (some breach) h = elim (Bool-cases (is_drawdown w cfg breach.limit)) [
      | inl d ↦ rw d (
          if-Within w cfg n base breach.should_flatten _ _
            (λ t. flatten_positions-Within a.state.open_positions _ h) (λ t. record { fits = h }))
      | inr d ↦ rw d (
          if-Within w cfg n base breach.should_flatten _ _
            (λ t. flatten_positions-Within a.state.open_positions _ h) (λ t. record { fits = h }))
    ]

module _ {F : Type 0} ⦃fl : Float F⦄ (w : World F) (cfg : AgentConfig F) where
  -- For every bound that is at least the configured maximum of open positions and the number of those
  -- open when a tick begins: at its end no more than that are in the agent's book, however many
  -- symbols signal at once, and the book has counted every purchase that went out (queued for the
  -- phone, or sent and saved): those open at the beginning and the purchases of the tick are no more
  -- than those in the book and the sales of the tick.
  pub tick_on-Room :
      (n : ℕ) (a : Agent F)
      → a.history ≡ []
      → cfg.limits.max_open_positions ≤ n
      → held a ≤ n
      → let after = (tick_on w cfg a).1 in
        (held after ≤ n)
        × (held a + given buy after.history ≤ held after + given sell after.history)
  unfolding tick_on
  tick_on-Room n a fresh limit h =
      (guarded_tick-Within w cfg n (held a) limit a _ (h, rw fresh (omega arith))).fits
