-- ===== src/Backend/History/Drawdown.antt =====
-- How long a drawdown stop lasts, and which snapshots the portfolio of a tick is read from.
use Prim.Native.Nat.{◌<◌ as lt_ℕ}
use mathlib.Core.Option
use mathlib.Core.List.{append-nil}
use neuravex.Prelude.{
  ltb→lt, subst, ℕ, ◌≤◌, String, ◌≡◌, refl, ◌∙◌, Bool, true, false, ◌&&◌, none, some, List, [], ◌∷◌,
  ◌++◌, map, keep, All, arith, Bool-cases, Option-cases, inl, inr, ltb, leb, later, str_eq, eq_iff,
  sym, false≢true,
}
use neuravex.Prelude.Updates.{keep-append}
use neuravex.Prelude.Slices.{map-append}
use neuravex.Float.{Float, max}
use neuravex.Risk.Limits.{PortfolioState, drawdown_halt_cooldown}
use neuravex.Backend.History.{
  Snapshot, HaltEvent, History, Store, same_mode, latest_time, still_halted,
}
use neuravex.Backend.History.Portfolio.{
  latest_drawdown_halt, note_drawdown_halt, own_snapshots, largest_of, drawdown_peak_equity,
  state_from, get_portfolio_state, simulated_activity, live_activity, live_open_positions,
}

-- The latest of some times is not before any of them.
latest_time-snoc : (ts : List ℕ) (x : ℕ) → (t : ℕ) × (latest_time (ts ++ x ∷ []) ≡ some t) × (x ≤ t)
latest_time-snoc [] x = (x, refl, omega arith)
latest_time-snoc (y ∷ ts) x =
    let (t, found, after) = latest_time-snoc ts x in
    elim (Bool-cases (ltb y t)) [
      | inl h ↦ (t, rw (found, h) refl, after)
      | inr h ↦ (y, rw (found, h) refl, ground arith)
    ]

same_mode_refl : (b : Bool) → same_mode b b ≡ true
same_mode_refl true = refl
same_mode_refl false = refl

keep_none : {A : Type 0} (p : A → Bool) (xs : List A) → All (λ x. p x ≡ false) xs → keep p xs ≡ []
keep_none p [] h = refl
keep_none p (x ∷ xs) h = rw h.0 (keep_none p xs h.1)

module _ {F : Type 0} where
  abbrev halt_event : Store F → String → ℕ → HaltEvent
  halt_event store account now = record {
    account_id = account;
    simulated = store.simulated;
    created_at = now;
  }

  -- With one more event, written now, the latest is not before now.
  latest-added :
      (store : Store F) (account : String) (now : ℕ) (h : History F)
      → let event = halt_event store account now in
        (t : ℕ) × (latest_drawdown_halt store account (record h { halts = h.halts ++ event ∷ [] })
          ≡ some t)
        × (now ≤ t)
  unfolding latest_drawdown_halt
  latest-added store account now h =
      let own =
        λ (e : HaltEvent). str_eq e.account_id account && same_mode store.simulated e.simulated in
      let (t, found, after) = latest_time-snoc (map (λ e. e.created_at) (keep own h.halts)) now in
      (
        t,
        rw
            (
              keep-append own h.halts,
              (eq_iff account account).1 refl,
              same_mode_refl store.simulated,
              map-append (λ (e : HaltEvent). e.created_at) (keep own h.halts),
            )
            found,
        after,
      )

  note_still :
      (store : Store F) (account : String) (now t : ℕ) (h : History F)
      → latest_drawdown_halt store account h ≡ some t
      → lt_ℕ now (later t drawdown_halt_cooldown)
      → note_drawdown_halt store account now h ≡ h
  unfolding note_drawdown_halt
  note_still store account now t h e running = rw e (ground arith)

  latest-note :
      (store : Store F) (account : String) (now : ℕ) (h : History F)
      → (t : ℕ) × (latest_drawdown_halt store account (note_drawdown_halt store account now h)
          ≡ some t)
        × lt_ℕ now (later t drawdown_halt_cooldown)
  unfolding note_drawdown_halt
  latest-note store account now h =
      elim (Bool-cases (still_halted (latest_drawdown_halt store account h) now)) [
        | inl running ↦ elim (Option-cases (latest_drawdown_halt store account h)) [
          | inl nothing ↦ absurd (false≢true (sym (rw nothing refl) ∙ running))
          | inr (t, found) ↦
              let until : still_halted (some t) now ≡ true =
                subst (λ o. still_halted o now ≡ true) found running in
              (t, rw running found, ltb→lt _ _ until)
        ]
        | inr over ↦
            let (t, found, after) = latest-added store account now h in
            (t, rw over found, omega arith)
      ]

  -- A drawdown stop is noted once: after a note a stop is running, and until it runs out, seven days
  -- after the event that began it, every further note changes nothing.
  pub note_drawdown_halt-Once :
      (store : Store F) (account : String) (now : ℕ) (h : History F)
      → let noted = note_drawdown_halt store account now h in
        (t : ℕ) × (latest_drawdown_halt store account noted ≡ some t)
        × lt_ℕ now (later t drawdown_halt_cooldown)
        × ((next : ℕ)
            → lt_ℕ next (later t drawdown_halt_cooldown)
            → note_drawdown_halt store account next noted ≡ noted)
  note_drawdown_halt-Once store account now h =
      let (t, found, running) = latest-note store account now h in
      (t, found, running, λ next soon. note_still store account next t _ found soon)

module _ {F : Type 0} ⦃fl : Float F⦄ where
  max_same : (x : F) → max x x ≡ x
  max_same x = ground arith

  peak_none :
      (store : Store F) (account : String) (now t : ℕ) (h : History F)
      → latest_drawdown_halt store account h ≡ some t
      → later t drawdown_halt_cooldown ≤ now
      → All
          (λ s. leb (later t drawdown_halt_cooldown) s.taken_at ≡ false)
          (own_snapshots store account h)
      → drawdown_peak_equity store account now h ≡ none
  unfolding drawdown_peak_equity largest_of
  peak_none store account now t h halted over old =
      let ended : leb (later t drawdown_halt_cooldown) now ≡ true = ground arith in
      rw (halted, ended, keep_none _ (own_snapshots store account h) old) refl

  -- A drawdown stop ends by itself: once the latest stop of the account is seven days old, and
  -- before a snapshot has been taken since it ended, the peak equity of the portfolio that is read
  -- is the equity itself, however high the account once stood.
  pub get_portfolio_state-Resumes :
      (store : Store F) (account : String) (now t : ℕ) (h : History F) {state : PortfolioState F}
      → latest_drawdown_halt store account h ≡ some t
      → later t drawdown_halt_cooldown ≤ now
      → All
          (λ s. leb (later t drawdown_halt_cooldown) s.taken_at ≡ false)
          (own_snapshots store account h)
      → get_portfolio_state store account now h ≡ some state
      → state.peak_equity ≡ state.equity
  unfolding get_portfolio_state state_from
  get_portfolio_state-Resumes store account now t h {state} halted over old e =
      let (balance, known, is_state) =
        (Option.map-eq-some_iff _ (h.starting_balance account)).0 e in
      let peak = peak_none store account now t h halted over old in
      subst (λ st. st.peak_equity ≡ st.equity) is_state (rw peak (max_same _))

  -- A snapshot and a drawdown stop of another account, or of the other mode, change nothing of the
  -- portfolio that a tick reads: neither its equity and its peak, nor the result of the day.
  pub get_portfolio_state-Separate :
      (store : Store F) (account : String) (now : ℕ) (h : History F) (s : Snapshot F)
      (e : HaltEvent)
      → (str_eq s.account_id account && same_mode store.simulated s.is_simulated) ≡ false
      → (str_eq e.account_id account && same_mode store.simulated e.simulated) ≡ false
      → get_portfolio_state store account now
          (record h { snapshots = h.snapshots ++ s ∷ []; halts = h.halts ++ e ∷ [] })
        ≡ get_portfolio_state store account now h
  unfolding get_portfolio_state state_from drawdown_peak_equity own_snapshots latest_drawdown_halt
      simulated_activity live_activity live_open_positions
  get_portfolio_state-Separate store account now h s e foreign elsewhere =
      let own = λ (x : Snapshot F).
        str_eq x.account_id account && same_mode store.simulated x.is_simulated in
      let stop =
        λ (x : HaltEvent). str_eq x.account_id account && same_mode store.simulated x.simulated in
      let same : keep own (h.snapshots ++ s ∷ []) ≡ keep own h.snapshots =
        keep-append own h.snapshots (s ∷ []) ∙ rw foreign (append-nil _) in
      let stops : keep stop (h.halts ++ e ∷ []) ≡ keep stop h.halts =
        keep-append stop h.halts (e ∷ []) ∙ rw elsewhere (append-nil _) in
      rw (same, stops) refl
