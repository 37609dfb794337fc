-- ===== src/Agent/Passes.antt =====
-- The effects of the passes over symbols and over open positions.
use neuravex.Prelude.{
  ℕ, String, ◌≡◌, refl, Bool, true, false, not, ◌&&◌, ◌||◌, Option, none, some, List, [], ◌∷◌,
  arith, All, Bool-cases, Option-cases, inl, inr, if◌then◌else◌, last?, or_else, subst, sym, length,
  ltb,
}
use neuravex.Prelude.Dict.{Dict}
use neuravex.Float.{Float, ◌<=◌, of_ℕ}
use neuravex.Market.Regime.{RegimeReading}
use neuravex.Risk.Plan.{Direction, flat}
use neuravex.Risk.Limits.{OpenPosition}
use neuravex.Execution.Paper.{sell}
use neuravex.Strategies.Signal.{Ohlcv, StrategySignal}
use neuravex.Decision.{Decision}
use neuravex.Agent.{
  AgentConfig, Candle, World, Agent, Effect, Outcome, value, raised, signal_saved, emit,
}
use neuravex.Agent.Entry.{Setup, Plan, refuse, close_held, enter, failed, plan_for, counted_candles}
use neuravex.Agent.Orders.{save_decision}
use neuravex.Agent.Process.{
  regime_params, Processed, processed, nothing, decided, exception, gather_signals, carry_out,
  act_on, decide, analyse, with_candles, fetched_candles, process_symbol, is_quiet, is_no_trade,
}
use neuravex.Agent.Tick.{
  flatten_decision, flattened_one, flatten_positions, recorded, process_symbols,
}
use neuravex.Agent.Effects.{
  plan_for_frame, quiet_after_frame, CoversQuiet, CoversCloses, CoversEntries, Holds, if-Holds,
  save_decision-Holds, close_position-Holds, enter_position-Holds,
}

module _ {F : Type 0} ⦃fl : Float F⦄ where
  module _ (w : World F) (cfg : AgentConfig F) (P : Effect F → Type 0) where
    module _ (quiet : CoversQuiet w cfg P) where
      gather_signals-Holds :
          (strategies : List (String → Ohlcv F → RegimeReading F → Option (StrategySignal F)))
          (s : Setup F) (a : Agent F)
          → All P a.history
          → Holds w cfg P (gather_signals strategies s a)
      unfolding gather_signals
      gather_signals-Holds [] s a h = record { all = h }
      gather_signals-Holds (strategy ∷ rest) s a h =
          elim (Option-cases (strategy s.symbol s.ohlcv s.regime)) [
            | inl e ↦ rw (gather_signals, e) (gather_signals-Holds rest s a h)
            | inr (signal, e) ↦
                rw (gather_signals, e)
                  (record {
                    all = (gather_signals-Holds rest s _ (saved signal (is_quiet s.symbol a))).all;
                  })
          ]
        where
          saved :
              (signal : StrategySignal F) (b : Bool)
              → All P (if b then a else emit (signal_saved signal) a).history
          saved signal true = h
          saved signal false = (quiet _ refl, h)

      processed-Holds :
          (r : Outcome (Decision F) × Agent F) → Holds w cfg P r → Holds w cfg P (processed w cfg r)
      processed-Holds (value d, a) h = record { all = h.all }
      processed-Holds (raised d, a) h = record { all = h.all }

      module _ (closes : CoversCloses w cfg P (not cfg.dry_run))
          (entries : CoversEntries w cfg P) where
        not_dry : not (cfg.dry_run && not false) ≡ not cfg.dry_run
        not_dry = ground arith

        carry_out-Holds :
            (s : Setup F) (direction : Direction) (d : Decision F) (r : Plan F × Agent F)
            → Holds w cfg P r
            → Holds w cfg P (carry_out w cfg s direction d r)
        unfolding carry_out
        carry_out-Holds s direction d (refuse reason, a) h = record { all = h.all }
        carry_out-Holds s direction d (failed, a) h = record { all = h.all }
        carry_out-Holds s direction d (close_held q, a) h = processed-Holds _ (
            close_position-Holds w cfg P quiet s.symbol q _ false a
              (subst (CoversCloses w cfg P) (sym not_dry) closes) h.all)
        carry_out-Holds s direction d (enter p size, a) h =
            processed-Holds _ (
              enter_position-Holds w cfg P quiet s.symbol direction p size s.price d a entries
                h.all)

        act_on-Holds :
            (s : Setup F) (d : Decision F) (a : Agent F) (closed : Option ℕ)
            → All P a.history
            → Holds w cfg P (act_on w cfg s d a closed)
        unfolding act_on
        act_on-Holds s d a (some closed) h = record { all = h }
        act_on-Holds s d a none h =
            let direction = or_else d.direction flat in
            carry_out-Holds s direction d (plan_for w cfg s d direction a)
              (record { all = subst (All P) (sym (plan_for_frame w cfg s d direction a).0) h })

        decide-Holds :
            (s : Setup F) (closed : Option ℕ) (a : Agent F) (scored : Option (Decision F))
            → All P a.history
            → Holds w cfg P (decide w cfg s closed a scored)
        unfolding decide
        decide-Holds s closed a none h = record { all = h }
        decide-Holds s closed a (some scored) h = elim (Bool-cases (is_no_trade scored.action)) [
          | inl t ↦ rw t (record { all = h })
          | inr t ↦ rw t (act_on-Holds s _ a _ h)
        ]

        analyse-Holds :
            (s : Setup F) (last : Option (Candle F)) (before : Agent F) (o : Option (Agent F))
            → All P before.history
            → ((a : Agent F) → o ≡ some a → a.history ≡ before.history)
            → Holds w cfg P (analyse w cfg s last before o)
        unfolding analyse
        analyse-Holds s last before none h k = record { all = h }
        analyse-Holds s last before (some a) h k =
            decide-Holds s _ _ _
              (gather_signals-Holds w.strategies s a (subst (All P) (sym (k a refl)) h)).all

        with_candles-Holds :
            (symbol : String) (price : F) (a : Agent F) (o : Option (List (Candle F)))
            → All P a.history
            → Holds w cfg P (with_candles w cfg symbol price a o)
        unfolding with_candles
        with_candles-Holds symbol price a none h = record { all = h }
        with_candles-Holds symbol price a (some cs) h =
            if-Holds w cfg P quiet (ltb (length cs) 60) _ _ (λ t. record { all = h })
              (λ t. elim (Option-cases (regime_params cfg)) [
                | inl e ↦ rw e (record { all = h })
                | inr (params, e) ↦
                    rw e
                      (analyse-Holds _ _ a _ h (λ b. quiet_after_frame w cfg symbol (last? cs) a b))
              ])

        fetched_candles-Holds :
            (symbol : String) (a : Agent F) (o : Option (List (Candle F)))
            → All P a.history
            → Holds w cfg P (fetched_candles w cfg symbol a o)
        unfolding fetched_candles
        fetched_candles-Holds symbol a none h = record { all = h }
        fetched_candles-Holds symbol a (some cs) h = elim (Option-cases (last? cs)) [
          | inl e ↦ rw (fetched_candles, e) (record { all = h })
          | inr (c, e) ↦
              rw (fetched_candles, e)
                (with_candles-Holds symbol c.close a (counted_candles w cfg a.history cs) h)
        ]

        recorded-Holds :
            (symbol : String) (r : Processed F × Agent F)
            → Holds w cfg P r
            → Holds w cfg P (recorded w cfg symbol r)
        unfolding recorded
        recorded-Holds symbol (nothing, a) h = record { all = h.all }
        recorded-Holds symbol (exception, a) h = record { all = (quiet _ refl, h.all) }
        recorded-Holds symbol (decided d, a) h =
            if-Holds w cfg P quiet (not (is_no_trade d.action) || not (is_quiet symbol a))
              ((save_decision w d a).0 ∷ [], (save_decision w d a).1) (d ∷ [], a)
              (λ t. record { all = (save_decision-Holds w cfg P quiet d a h.all).all })
              (λ t. record { all = h.all })

        pub process_symbols-Holds :
            (symbols : List String) (a : Agent F)
            → All P a.history
            → Holds w cfg P (process_symbols w cfg symbols a)
        unfolding process_symbols process_symbol
        process_symbols-Holds [] a h = record { all = h }
        process_symbols-Holds (symbol ∷ symbols) a h = record {
          all =
              (process_symbols-Holds symbols _
                (recorded-Holds symbol _
                  (fetched_candles-Holds symbol a (w.get_candles a.history symbol) h)).all).all;
        }

      flattened_one-Holds :
          (r : Outcome (Decision F) × Agent F)
          → Holds w cfg P r
          → Holds w cfg P (flattened_one w cfg r)
      unfolding flattened_one
      flattened_one-Holds (value d, a) h = save_decision-Holds w cfg P quiet d a h.all
      flattened_one-Holds (raised d, a) h =
          save_decision-Holds w cfg P quiet _ _ (quiet _ refl, h.all)

      pub flatten_positions-Holds :
          CoversCloses w cfg P true
          → (open_positions : Dict (OpenPosition F)) (a : Agent F) → All P a.history
          → Holds w cfg P (flatten_positions w cfg true open_positions a)
      unfolding flatten_positions
      flatten_positions-Holds closes [] a h = record { all = h }
      flatten_positions-Holds closes ((symbol, p) ∷ rest) a h =
          elim (Bool-cases ((p.quantity <= of_ℕ 0) || w.has_pending_order a.history symbol sell)) [
            | inl t ↦ rw (flatten_positions, t) (flatten_positions-Holds closes rest a h)
            | inr t ↦
                let sale =
                  close_position-Holds w cfg P quiet symbol p.quantity
                    (flatten_decision w cfg symbol p.quantity) true a
                    (subst (CoversCloses w cfg P) (sym always) closes) h in
                rw (flatten_positions, t)
                  (record {
                    all =
                        (flatten_positions-Holds closes rest _
                          (flattened_one-Holds _ sale).all).all;
                  })
          ]
        where
          always : not (cfg.dry_run && not true) ≡ true
          always = ground arith
