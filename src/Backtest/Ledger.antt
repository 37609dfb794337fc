-- ===== src/Backtest/Ledger.antt =====
-- The books of the backtest: its equity, its curve and its trades.
use Prim.Native.Nat.{◌+◌ as add_ℕ, ◌-◌ as monus, ◌<◌ as lt_ℕ}
use mathlib.Core.List.{foldl-append}
use neuravex.Prelude.{
  ℕ, suc, ◌≤◌, ◌≡◌, refl, ◌∙◌, ap, sym, subst, true, some, List, [], ◌∷◌, ◌++◌, foldl, arith,
  length, last?, All, All-append, All-mono, length-append,
}
use neuravex.Float.{Float, ◌+◌}
use neuravex.Market.Numpy.{Numpy}
use neuravex.Risk.Plan.{long}
use neuravex.Agent.{Candle}
use neuravex.Backtest.{BacktestRequest, BacktestResult, Run, Trade, TradeExit, columns}
use neuravex.Backtest.Engine.{measured, settle, closed, start, run_backtest, result_of}
use neuravex.Backtest.Rounds.{Rounds, bars-Ensures, Ensures-some, Ensures-map, Ensures-mono}

module _ {A : Type 0} where
  last?-snoc : (xs : List A) (x : A) → last? (xs ++ x ∷ []) ≡ some x
  last?-snoc [] x = refl
  last?-snoc (y ∷ []) x = refl
  last?-snoc (y ∷ z ∷ xs) x = last?-snoc (z ∷ xs) x

module _ {F : Type 0} ⦃fl : Float F⦄ (np : Numpy F) (r : BacktestRequest F) where
  -- A trade that was closed before bar `end` and after the bar that opened it; spot only, it is LONG.
  pub record IsClosed (end : ℕ) (t : Trade F) : Type 0 where
    pub exit : ℕ
    pub exited : t.exit_index ≡ some exit
    pub later : lt_ℕ t.entry_index exit
    pub before : lt_ℕ exit end
    pub spot : r.spot_only ≡ true → t.direction ≡ long

  abbrev pub after_trades : List (Trade F) → F
  after_trades trades = foldl (λ e t. e + t.pnl) r.starting_equity trades

  record IsSound (i : ℕ) (run : Run F) : Type 0 where
    ledger : run.equity ≡ after_trades run.trades
    curve : add_ℕ (length run.equity_curve) r.warmup_bars ≡ suc i
    end : last? run.equity_curve ≡ some run.equity
    closed_ones : All (IsClosed i) run.trades
    current :
        (t : Trade F)
        → run.open_trade ≡ some t
        → lt_ℕ t.entry_index i × (r.spot_only ≡ true → t.direction ≡ long)

  IsClosed-suc : (i : ℕ) (t : Trade F) → IsClosed i t → IsClosed (suc i) t
  IsClosed-suc i t h = record {
    exit = h.exit;
    exited = h.exited;
    later = h.later;
    before = let b = h.before in omega arith;
    spot = h.spot;
  }

  closed-IsClosed :
      (i : ℕ) (t : Trade F) (price : F) (reason : TradeExit)
      → lt_ℕ t.entry_index i × (r.spot_only ≡ true → t.direction ≡ long)
      → IsClosed (suc i) (closed np r t i price reason)
  unfolding closed
  closed-IsClosed i t price reason h = record {
    exit = i;
    exited = refl;
    later = h.0;
    before = omega arith;
    spot = h.1;
  }

  -- Measuring adds one entry to the curve, the equity of the bar.
  measured-IsSound :
      (i : ℕ) (run m : Run F)
      → IsSound i run
      → m.equity_curve ≡ run.equity_curve
      → m.equity ≡ after_trades m.trades
      → All (IsClosed (suc i)) m.trades
      → ((t : Trade F)
          → m.open_trade ≡ some t
          → lt_ℕ t.entry_index (suc i) × (r.spot_only ≡ true → t.direction ≡ long))
      → IsSound (suc i) (measured np r m)
  unfolding measured
  measured-IsSound i run m h same ledger closed_ones current = record {
    ledger = ledger;
    curve =
        let old = h.curve in
        rw same (omega (arith, length-append run.equity_curve (m.equity ∷ [])));
    end = last?-snoc m.equity_curve m.equity;
    closed_ones = closed_ones;
    current = current;
  }

  Rounds-IsSound :
      (i : ℕ) (run : Run F)
      → IsSound i run
      → Rounds np r (λ m. IsSound (suc i) (measured np r m)) i run
  unfolding settle
  Rounds-IsSound i run h =
      let old = All-mono _ _ (IsClosed-suc i) run.trades h.closed_ones in
      record {
        rest =
            measured-IsSound i run run h refl h.ledger old
              (λ t e. let c = h.current t e in (omega arith, c.1));
        close = λ t price reason e.
            let done = closed np r t i price reason in
            measured-IsSound i run (settle np r run done) h refl
              (ap (λ x. x + done.pnl) h.ledger ∙ sym (foldl-append _ _ run.trades (done ∷ [])))
              (All-append _ run.trades (done ∷ []) old
                (closed-IsClosed i t price reason (h.current t e), tt))
              (λ u k. cc);
        enters = λ t e fresh.
            measured-IsSound i run (record run { open_trade = some t }) h refl h.ledger old
              (λ u k.
                let same : t ≡ u = cc in
                let at : t.entry_index ≡ i = fresh.entered in
                subst (λ v. lt_ℕ v.entry_index (suc i) × (r.spot_only ≡ true → v.direction ≡ long))
                  same (omega arith, fresh.spot));
      }

  start-IsSound : IsSound r.warmup_bars (start np r)
  start-IsSound = record {
    ledger = refl;
    curve = omega arith;
    end = refl;
    closed_ones = tt;
    current = λ t e. cc;
  }

  -- What a finished backtest of n candles says of itself.
  pub record IsAudited (n : ℕ) (result : BacktestResult F) : Type 0 where
    pub ledger : result.final_equity ≡ after_trades result.trades
    pub curve : add_ℕ (length result.equity_curve) r.warmup_bars ≡ suc n
    pub end : last? result.equity_curve ≡ some result.final_equity
    pub closed_ones : All (IsClosed n) result.trades

  result_of-IsAudited : (n : ℕ) (run : Run F) → IsSound n run → IsAudited n (result_of np r run)
  unfolding result_of
  result_of-IsAudited n run h = record {
    ledger = h.ledger;
    curve = h.curve;
    end = h.end;
    closed_ones = h.closed_ones;
  }

  -- The books of a backtest balance, where it ends without an exception on at least as many
  -- candles as the warm-up: its final equity is the starting equity with the results of its trades
  -- added one after the other, the curve has one entry more than there are candles after the warm-
  -- up and ends in the final equity, and every trade was closed at a later bar than the one that
  -- opened it, none of them SHORT where the backtest is spot only.
  pub run_backtest-IsAudited :
      (candles : List (Candle F)) {result : BacktestResult F}
      → r.warmup_bars ≤ length candles
      → run_backtest np r candles ≡ some result
      → IsAudited (length candles) result
  unfolding run_backtest
  run_backtest-IsAudited candles h e =
      let left = monus (length candles) r.warmup_bars in
      let sound =
        bars-Ensures np r IsSound (columns candles) Rounds-IsSound left r.warmup_bars
          (length candles) (start np r) (omega arith) start-IsSound in
      Ensures-some (IsAudited (length candles)) _
        (Ensures-map (IsAudited (length candles)) (result_of np r) _
          (Ensures-mono _ _ (result_of-IsAudited (length candles)) _ sound))
        e
