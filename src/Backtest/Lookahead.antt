-- ===== src/Backtest/Lookahead.antt =====
-- What a bar of the backtest sees: nothing that comes after it.
use Prim.Native.Nat.{◌+◌ as add_ℕ, ◌-◌ as monus}
use neuravex.Prelude.{
  ℕ, zero, suc, ◌≤◌, ◌≡◌, refl, ◌∙◌, ap, sym, subst, length-append, Option, none, some, List, [],
  ◌∷◌, ◌++◌, arith, length, take, get_elem?,
}
use neuravex.Prelude.Slices.{take-map-append, get_elem?-map-append}
use neuravex.Float.{Float, ◌+◌}
use neuravex.Market.Numpy.{Numpy}
use neuravex.Strategies.Signal.{Ohlcv}
use mathlib.Core.Option
use mathlib.Core.List.{append-nil, append_assoc}
use mathlib.Core.Path.{fun_ext}
use neuravex.Decision.{Decision, Action, buy, sell, no_trade}
use neuravex.Risk.Plan.{Direction, long, short}
use neuravex.Agent.{Candle}
use neuravex.Backtest.{BacktestRequest, BacktestResult, Run, Trade, columns}
use neuravex.Backtest.Rounds.{Rounds, bars-Ensures, Ensures-some}
use neuravex.Backtest.Engine.{
  settle, closed, decide, plan_at, bar, bars, traded, measured, enter, enter_for, start,
  run_backtest, result_of,
}

-- Two series that are the same up to index i.
pub record Agree {F : Type 0} (i : ℕ) (a b : Ohlcv F) : Type 0 where
  pub high : take (suc i) a.high ≡ take (suc i) b.high
  pub low : take (suc i) a.low ≡ take (suc i) b.low
  pub close : take (suc i) a.close ≡ take (suc i) b.close
  pub volume : take (suc i) a.volume ≡ take (suc i) b.volume
  pub before : take i a.volume ≡ take i b.volume
  pub price : get_elem? a.close i ≡ get_elem? b.close i
  pub amount : get_elem? a.volume i ≡ get_elem? b.volume i

module _ {F : Type 0} where
  columns-Agree :
      (cs more : List (Candle F)) (i : ℕ)
      → suc i ≤ length cs
      → Agree i (columns (cs ++ more)) (columns cs)
  columns-Agree cs more i h = record {
    high = take-map-append (λ c. c.high) (suc i) cs more h;
    low = take-map-append (λ c. c.low) (suc i) cs more h;
    close = take-map-append (λ c. c.close) (suc i) cs more h;
    volume = take-map-append (λ c. c.volume) (suc i) cs more h;
    before = take-map-append (λ c. c.volume) i cs more (omega arith);
    price = get_elem?-map-append (λ c. c.close) i cs more (omega arith);
    amount = get_elem?-map-append (λ c. c.volume) i cs more (omega arith);
  }

module _ {F : Type 0} ⦃fl : Float F⦄ (np : Numpy F) (r : BacktestRequest F) where
  decide-Agree : (i : ℕ) (a b : Ohlcv F) → Agree i a b → decide np r i a ≡ decide np r i b
  unfolding decide
  decide-Agree i a b h = rw (h.high, h.low, h.close, h.volume, h.before, h.amount) refl

  plan_at-Agree :
      (i : ℕ) (a b : Ohlcv F) (entry : F) (direction : Direction)
      → Agree i a b
      → plan_at np r i a entry direction ≡ plan_at np r i b entry direction
  unfolding plan_at
  plan_at-Agree i a b entry direction h = rw (h.high, h.low, h.close) refl

  enter-Agree :
      (i : ℕ) (a b : Ohlcv F) (run : Run F) (action : Action) (confidence : F)
      → Agree i a b
      → enter np r run i a action confidence ≡ enter np r run i b action confidence
  unfolding enter enter_for
  enter-Agree i a b run buy confidence h = rw (h.price, plan_at-Agree i a b _ long h) refl
  enter-Agree i a b run sell confidence h = rw (h.price, plan_at-Agree i a b _ short h) refl
  enter-Agree i a b run no_trade confidence h = refl

  traded-Agree :
      (i : ℕ) (a b : Ohlcv F) (run : Run F) (d : Decision F) (t : Option (Trade F))
      → Agree i a b
      → traded np r run i a d t ≡ traded np r run i b d t
  unfolding traded
  traded-Agree i a b run d none h = enter-Agree i a b run d.action d.confidence h
  traded-Agree i a b run d (some t) h =
      rw (h.price, plan_at-Agree i a b t.entry_price t.direction h) refl

  bar-Agree :
      (i : ℕ) (a b : Ohlcv F) (run : Run F) → Agree i a b → bar np r i a run ≡ bar np r i b run
  unfolding bar
  bar-Agree i a b run h = λ j.
      Option.bind (decide-Agree i a b h j)
        (λ d. Option.map (measured np r) (traded-Agree i a b run d run.open_trade h j))

  bars-Agree :
      (cs more : List (Candle F)) (left i : ℕ) (run : Run F)
      → add_ℕ i left ≤ length cs
      → bars np r left i (columns (cs ++ more)) run ≡ bars np r left i (columns cs) run
  unfolding bars
  bars-Agree cs more zero i run h = refl
  bars-Agree cs more (suc left) i run h = λ j.
      Option.bind
        (bar-Agree i (columns (cs ++ more)) (columns cs) run (columns-Agree cs more i (omega arith))
          j)
        (λ next. bars-Agree cs more left (suc i) next (omega arith) j)

module _ {A B C : Type 0} where
  bind_assoc :
      (o : Option A) (f : A → Option B) (g : B → Option C)
      → Option.bind (Option.bind o f) g ≡ Option.bind o (λ x. Option.bind (f x) g)
  unfolding Option.bind
  bind_assoc none f g = refl
  bind_assoc (some x) f g = refl

snoc_of :
    {A : Type 0} {xs : List A} (ys zs : List A) (x : A)
    → xs ≡ ys ++ zs
    → xs ++ x ∷ [] ≡ ys ++ (zs ++ x ∷ [])
snoc_of ys zs x e = rw (e, append_assoc ys zs (x ∷ [])) refl

-- A result that goes on from another: what was traded and measured before stays as it is.
pub record IsContinued {F : Type 0} (past future : BacktestResult F) : Type 0 where
  pub later_curve : List F
  pub curve : future.equity_curve ≡ past.equity_curve ++ later_curve
  pub later_trades : List (Trade F)
  pub trades : future.trades ≡ past.trades ++ later_trades

record Extends {F : Type 0} (base run : Run F) : Type 0 where
  later_curve : List F
  curve : run.equity_curve ≡ base.equity_curve ++ later_curve
  later_trades : List (Trade F)
  trades : run.trades ≡ base.trades ++ later_trades

module _ {F : Type 0} ⦃fl : Float F⦄ (np : Numpy F) (r : BacktestRequest F) where
  bars-split :
      (m n i total k : ℕ) (all : Ohlcv F) (run : Run F)
      → total ≡ add_ℕ m n
      → k ≡ add_ℕ i m
      → bars np r total i all run ≡ Option.bind (bars np r m i all run) (bars np r n k all)
  unfolding bars Option.bind
  bars-split zero n i total k all run e d =
      let same : total ≡ n = omega arith in let here : k ≡ i = omega arith in rw (same, here) refl
  bars-split (suc m) n i zero k all run e d = absurd (omega arith)
  bars-split (suc m) n i (suc total) k all run e d =
      ap (Option.bind (bar np r i all run))
        (fun_ext (λ next. bars-split m n (suc i) total k all next (omega arith) (omega arith)))
      ∙ sym (bind_assoc (bar np r i all run) (bars np r m (suc i) all) (bars np r n k all))

  Rounds-Extends :
      (base : Run F) (i : ℕ) (run : Run F)
      → Extends base run
      → Rounds np r (λ m. Extends base (measured np r m)) i run
  unfolding measured settle
  Rounds-Extends base i run h = record {
    rest = record {
      later_curve = h.later_curve ++ run.equity ∷ [];
      curve = snoc_of base.equity_curve h.later_curve run.equity h.curve;
      later_trades = h.later_trades;
      trades = h.trades;
    };
    close = λ t price reason e.
        let done = closed np r t i price reason in
        record {
          later_curve = h.later_curve ++ (run.equity + done.pnl) ∷ [];
          curve = snoc_of base.equity_curve h.later_curve (run.equity + done.pnl) h.curve;
          later_trades = h.later_trades ++ done ∷ [];
          trades = snoc_of base.trades h.later_trades done h.trades;
        };
    enters = λ t e fresh. record {
      later_curve = h.later_curve ++ run.equity ∷ [];
      curve = snoc_of base.equity_curve h.later_curve run.equity h.curve;
      later_trades = h.later_trades;
      trades = h.trades;
    };
  }

  -- Candles that come later change nothing of what was traded and measured before them: where a
  -- backtest ends without an exception both on some candles, at least as many as the warm-up, and
  -- on the same candles with more behind them, the trades and the curve of the first run are the
  -- beginning of those of the second.
  pub run_backtest-NoLookahead :
      (cs more : List (Candle F)) {past future : BacktestResult F}
      → r.warmup_bars ≤ length cs
      → run_backtest np r cs ≡ some past
      → run_backtest np r (cs ++ more) ≡ some future
      → IsContinued past future
  unfolding run_backtest result_of Option.bind
  run_backtest-NoLookahead cs more {past} {future} h e f =
      let n = monus (length cs) r.warmup_bars in
      let total = monus (length (cs ++ more)) r.warmup_bars in
      let left = monus total n in
      let all = columns (cs ++ more) in
      let longer : length cs ≤ length (cs ++ more) = omega (arith, length-append cs more) in
      let reached = (Option.map-eq-some_iff (result_of np r) _).0 e in
      let ended = (Option.map-eq-some_iff (result_of np r) _).0 f in
      let onward : bars np r total r.warmup_bars all (start np r)
          ≡ bars np r left (length cs) all reached.0 =
        bars-split n left r.warmup_bars total (length cs) all (start np r) (omega arith)
          (omega arith)
        ∙ ap (λ o. Option.bind o (bars np r left (length cs) all))
            (bars-Agree np r cs more n r.warmup_bars (start np r) (omega arith) ∙ reached.1) in
      let extended =
        bars-Ensures np r (λ i. Extends reached.0) all (λ i. Rounds-Extends reached.0 i) left
          (length cs) (add_ℕ (length cs) left) reached.0 refl
          (record {
            later_curve = [];
            curve = sym (append-nil _);
            later_trades = [];
            trades = sym (append-nil _);
          }) in
      let last : Extends reached.0 ended.0 =
        Ensures-some (Extends reached.0) _ extended (sym onward ∙ ended.1) in
      subst (λ p. IsContinued p future) reached.2
        (subst (λ q. IsContinued (result_of np r reached.0) q) ended.2
          (record {
            later_curve = last.later_curve;
            curve = last.curve;
            later_trades = last.later_trades;
            trades = last.trades;
          }))
