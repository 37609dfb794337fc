-- ===== src/Backtest/Rounds.antt =====
-- What can happen in a bar of the backtest, as one rule for every property that the bars preserve.
use Prim.Native.Nat.{◌+◌ as add_ℕ}
use mathlib.Core.Option
use neuravex.Prelude.{
  if◌then◌else◌, ℕ, zero, suc, ◌≡◌, refl, Bool, true, false, Option, none, some, arith, Bool-cases,
  inl, inr, subst,
}
use neuravex.Float.{Float, ◌>◌, of_ℕ}
use neuravex.Market.Numpy.{Numpy}
use neuravex.Risk.Plan.{Direction, long, short, RiskPlan}
use neuravex.Risk.Sizing.{PositionSizeResult}
use neuravex.Strategies.Signal.{Ohlcv}
use neuravex.Decision.{Decision, Action, buy, sell, no_trade}
use neuravex.Backtest.{BacktestRequest, Run, Trade, TradeExit, stop, target, opposite_signal}
use neuravex.Backtest.Engine.{
  bar, bars, traded, measured, settle, closed, manage, hit_stop, hit_target, opposite, enter,
  enter_for, opened, sized, price_at,
}

module _ {A : Type 0} where
  -- What is true of a value, if there is one.
  abbrev pub Ensures : (A → Type 0) → Option A → Type 0
  Ensures P none = Unit
  Ensures P (some x) = P x

  pub Ensures-some : (P : A → Type 0) (o : Option A) {x : A} → Ensures P o → o ≡ some x → P x
  Ensures-some P none h e = cc
  Ensures-some P (some y) h e = let same : y ≡ _ = cc in subst P same h

  pub Ensures-mono :
      (P Q : A → Type 0) → ((x : A) → P x → Q x) → (o : Option A) → Ensures P o → Ensures Q o
  Ensures-mono P Q f none h = tt
  Ensures-mono P Q f (some x) h = f x h

  Ensures-all : (P : A → Type 0) → ((x : A) → P x) → (o : Option A) → Ensures P o
  Ensures-all P h none = tt
  Ensures-all P h (some x) = h x

  Ensures-if :
      (P : A → Type 0) (b : Bool) (x y : Option A)
      → (b ≡ true → Ensures P x)
      → (b ≡ false → Ensures P y)
      → Ensures P (if b then x else y)
  Ensures-if P true x y h k = h refl
  Ensures-if P false x y h k = k refl

module _ {A B : Type 0} (P : B → Type 0) where
  pub Ensures-map :
      (f : A → B) (o : Option A) → Ensures (λ x. P (f x)) o → Ensures P (Option.map f o)
  Ensures-map f none h = tt
  Ensures-map f (some x) h = h

  Ensures-bind :
      (R : A → Type 0) (f : A → Option B) (o : Option A)
      → Ensures R o
      → ((x : A) → R x → Ensures P (f x))
      → Ensures P (Option.bind o f)
  unfolding Option.bind
  Ensures-bind R f none r h = tt
  Ensures-bind R f (some x) r h = h x r

module _ {F : Type 0} ⦃fl : Float F⦄ (np : Numpy F) (r : BacktestRequest F) where
  -- A trade that was opened at bar i.
  pub record IsFresh (i : ℕ) (t : Trade F) : Type 0 where
    pub entered : t.entry_index ≡ i
    pub spot : r.spot_only ≡ true → t.direction ≡ long

  -- A bar does one of three things before it is measured: it changes nothing, it closes the open trade,
  -- or it opens one where there was none.
  pub record Rounds (Q : Run F → Type 0) (i : ℕ) (run : Run F) : Type 0 where
    pub rest : Q run
    pub close :
        (t : Trade F) (price : F) (reason : TradeExit)
        → run.open_trade ≡ some t
        → Q (settle np r run (closed np r t i price reason))
    pub enters :
        (t : Trade F) → run.open_trade ≡ none → IsFresh i t → Q (record run { open_trade = some t })

  module _ (Q : Run F → Type 0) (i : ℕ) (run : Run F) (rounds : Rounds Q i run) where
    manage-Ensures :
        (t : Trade F) (price : F) (action : Action) (p : RiskPlan F)
        → run.open_trade ≡ some t
        → Q (manage np r run t i price action p)
    unfolding manage
    manage-Ensures t price action p e = elim (Bool-cases (hit_stop np r t p price)) [
      | inl h ↦ rw h (rounds.close t price stop e)
      | inr h ↦ rw h (elim (Bool-cases (hit_target np r t p price)) [
        | inl k ↦ rw k (rounds.close t price target e)
        | inr k ↦ rw k (elim (Bool-cases (opposite np r t action)) [
          | inl l ↦ rw l (rounds.close t price opposite_signal e)
          | inr l ↦ rw l rounds.rest
        ])
      ])
    ]

    sized-Ensures :
        (direction : Direction) (price : F) (size : PositionSizeResult F)
        → run.open_trade ≡ none
        → (r.spot_only ≡ true → direction ≡ long)
        → Q (sized np r run direction i price size)
    unfolding sized
    sized-Ensures direction price size e spot = elim (Bool-cases (size.quantity > of_ℕ 0)) [
      | inl h ↦ rw h (rounds.enters _ e (record { entered = refl; spot = spot }))
      | inr h ↦ rw h rounds.rest
    ]

    enter_for-Ensures :
        (direction : Direction) (all : Ohlcv F) (confidence : F)
        → run.open_trade ≡ none
        → (r.spot_only ≡ true → direction ≡ long)
        → Ensures Q (enter_for np r run direction i all confidence)
    unfolding enter_for opened
    enter_for-Ensures direction all confidence e spot =
        Ensures-bind Q (λ p. Unit) _ _ (Ensures-all (λ p. Unit) (λ p. tt) _)
          (λ p _.
            Ensures-map Q _ _
              (Ensures-all _ (λ size. sized-Ensures direction (price_at np r i all) size e spot) _))

    enter-Ensures :
        (all : Ohlcv F) (action : Action) (confidence : F)
        → run.open_trade ≡ none
        → Ensures Q (enter np r run i all action confidence)
    unfolding enter
    enter-Ensures all buy confidence e = enter_for-Ensures long all confidence e (λ _. refl)
    enter-Ensures all sell confidence e =
        Ensures-if Q r.spot_only _ _ (λ h. rounds.rest)
          (λ h. enter_for-Ensures short all confidence e (λ t. cc))
    enter-Ensures all no_trade confidence e = rounds.rest

    traded-Ensures :
        (all : Ohlcv F) (d : Decision F) (o : Option (Trade F))
        → run.open_trade ≡ o
        → Ensures Q (traded np r run i all d o)
    unfolding traded
    traded-Ensures all d none e = enter-Ensures all d.action d.confidence e
    traded-Ensures all d (some t) e =
        Ensures-map Q _ _
          (Ensures-all _ (λ p. manage-Ensures t (price_at np r i all) d.action p e) _)

  pub bar-Ensures :
      (Q : Run F → Type 0) (i : ℕ) (all : Ohlcv F) (run : Run F)
      → Rounds (λ m. Q (measured np r m)) i run
      → Ensures Q (bar np r i all run)
  unfolding bar
  bar-Ensures Q i all run rounds =
      Ensures-bind Q (λ d. Unit {0}) _ _ (Ensures-all (λ d. Unit {0}) (λ d. tt) _)
        (λ d _.
          Ensures-map Q _ _
            (traded-Ensures (λ m. Q (measured np r m)) i run rounds all d run.open_trade refl))

  -- A property that every bar keeps holds after all of them.
  pub bars-Ensures :
      (Q : ℕ → Run F → Type 0) (all : Ohlcv F)
      → ((i : ℕ) (run : Run F) → Q i run → Rounds (λ m. Q (suc i) (measured np r m)) i run)
      → (left i end : ℕ) (run : Run F) → add_ℕ i left ≡ end
      → Q i run
      → Ensures (Q end) (bars np r left i all run)
  unfolding bars
  bars-Ensures Q all keep zero i end run e q = let same : i ≡ end = omega arith in rw (← same) q
  bars-Ensures Q all keep (suc left) i end run e q =
      Ensures-bind (Q end) (Q (suc i)) (bars np r left (suc i) all) (bar np r i all run)
        (bar-Ensures (Q (suc i)) i all run (keep i run q))
        (λ next h. bars-Ensures Q all keep left (suc i) end next (omega arith) h)
