-- ===== src/Backend/Equity/Moves.antt =====
-- What an account's owner is told of the moves of its equity.
use Prim.Native.Nat.{◌<◌ as lt_ℕ}
use mathlib.Core.Option
use mathlib.Core.List.{append-nil}
use neuravex.Prelude.{
  ℕ, String, ◌≡◌, ◌∙◌, refl, sym, inl, inr, true, false, Option, none, some, List, [], ◌∷◌, ◌++◌,
  All, str_eq, keep, Bool-cases, eq_iff,
}
use neuravex.Prelude.Updates.{keep-append}
use neuravex.Float.{Float, ◌-◌, ◌<◌, ◌<=◌, of_ℕ, abs}
use neuravex.Backend.History.Latest.{latest_by-snoc}
use neuravex.Backend.History.{Snapshot, History}
use neuravex.Backend.LiveExits.{LiveAccount}
use neuravex.Backend.Equity.{
  Notification, Alerts, is_move, baseline, latest_live_snapshot, move_at, alert_threshold,
  compare_equity, check_snapshot, check_account_equity, check_equity_movement,
}

module _ {F : Type 0} ⦃fl : Float F⦄ where
  -- The alerts about the equity of an account.
  abbrev pub own_alerts : String → Alerts F → List (Notification F)
  own_alerts account a = keep (is_move account) a.notifications

  move_at-other :
      (account other : String) (equity : F) (now : ℕ) (delivered : Option ℕ)
      (notifications : List (Notification F))
      → str_eq other account ≡ false
      → keep (is_move account) (notifications ++ move_at other equity now delivered ∷ [])
        ≡ keep (is_move account) notifications
  move_at-other account other equity now delivered notifications apart =
      keep-append (is_move account) notifications (move_at other equity now delivered ∷ [])
      ∙ rw apart (append-nil (keep (is_move account) notifications))

  compare_equity-other :
      (account other : String) (equity : F) (now : ℕ) (last : Option F) (a : Alerts F)
      → str_eq other account ≡ false
      → own_alerts account (compare_equity other equity now last a) ≡ own_alerts account a
  unfolding compare_equity
  compare_equity-other account other equity now none a apart =
      move_at-other account other equity now (some now) a.notifications apart
  compare_equity-other account other equity now (some last) a apart =
      elim (Bool-cases (abs (equity - last) < alert_threshold)) [
        | inl t ↦ rw t refl
        | inr t ↦ rw t (move_at-other account other equity now none a.notifications apart)
      ]

  check_snapshot-other :
      (account other : String) (now : ℕ) (s : Option (Snapshot F)) (a : Alerts F)
      → str_eq other account ≡ false
      → own_alerts account (check_snapshot other now s a) ≡ own_alerts account a
  unfolding check_snapshot
  check_snapshot-other account other now none a apart = refl
  check_snapshot-other account other now (some s) a apart = elim (Bool-cases (s.equity <= of_ℕ 0)) [
    | inl t ↦ rw t refl
    | inr t ↦ rw t (compare_equity-other account other s.equity now (baseline other a) a apart)
  ]

  check_account_equity-other :
      (account : String) (other : LiveAccount F) (now : ℕ) (h : History F) (a : Alerts F)
      → str_eq other.id account ≡ false
      → own_alerts account (check_account_equity other now h a) ≡ own_alerts account a
  unfolding check_account_equity
  check_account_equity-other account other now h a apart =
      elim (Bool-cases other.paper_trading_enabled) [
        | inl t ↦ rw t refl
        | inr t ↦
            rw t
              (check_snapshot-other account other.id now (latest_live_snapshot other.id h) a apart)
      ]

  check_equity_movement-other :
      (account : String) (others : List (LiveAccount F)) (now : ℕ) (h : History F) (a : Alerts F)
      → All (λ o. str_eq o.id account ≡ false) others
      → own_alerts account (check_equity_movement others now h a) ≡ own_alerts account a
  unfolding check_equity_movement
  check_equity_movement-other account [] now h a apart = refl
  check_equity_movement-other account (other ∷ rest) now h a apart =
      check_equity_movement-other account rest now h (check_account_equity other now h a) apart.1
      ∙ check_account_equity-other account other now h a apart.0

  check_equity_movement-append :
      (xs ys : List (LiveAccount F)) (now : ℕ) (h : History F) (a : Alerts F)
      → check_equity_movement (xs ++ ys) now h a
        ≡ check_equity_movement ys now h (check_equity_movement xs now h a)
  unfolding check_equity_movement
  check_equity_movement-append [] ys now h a = refl
  check_equity_movement-append (x ∷ xs) ys now h a =
      check_equity_movement-append xs ys now h (check_account_equity x now h a)

  baseline-own :
      (account : String) (a b : Alerts F)
      → own_alerts account a ≡ own_alerts account b
      → baseline account a ≡ baseline account b
  unfolding baseline
  baseline-own account a b same = rw same refl

  baseline-added :
      (account : String) (equity : F) (now : ℕ) (delivered : Option ℕ) (a b : Alerts F)
      → All (λ n. lt_ℕ n.created_at now) (own_alerts account a)
      → own_alerts account b ≡ own_alerts account a ++ move_at account equity now delivered ∷ []
      → baseline account b ≡ some equity
  unfolding baseline Option.bind
  baseline-added account equity now delivered a b before added =
      rw
        (
          added,
          latest_by-snoc (λ (n : Notification F). n.created_at) (own_alerts account a)
              (move_at account equity now delivered) before,
        )
        refl

  -- What a run does for an account, from what its last alert said before.
  pub data Told (account : String) (equity : F) (now : ℕ) (before after : Alerts F) : Type 0 where
    silent :
        baseline account before ≡ none
        → own_alerts account after
          ≡ own_alerts account before ++ move_at account equity now (some now) ∷ []
        → baseline account after ≡ some equity
        → Told account equity now before after
    still :
        (last : F)
        → baseline account before ≡ some last
        → (abs (equity - last) < alert_threshold) ≡ true
        → own_alerts account after ≡ own_alerts account before
        → Told account equity now before after
    moved :
        (last : F)
        → baseline account before ≡ some last
        → (abs (equity - last) < alert_threshold) ≡ false
        → own_alerts account after
          ≡ own_alerts account before ++ move_at account equity now none ∷ []
        → baseline account after ≡ some equity
        → Told account equity now before after

  module _ (account : String) (equity : F) (now : ℕ) (before : Alerts F)
      (earlier : All (λ n. lt_ℕ n.created_at now) (own_alerts account before)) where
    adds :
        (delivered : Option ℕ)
        → keep (is_move account) (before.notifications ++ move_at account equity now delivered ∷ [])
          ≡ own_alerts account before ++ move_at account equity now delivered ∷ []
    adds delivered =
        rw (keep-append (is_move account) before.notifications, (eq_iff account account).1 refl)
          refl

    compare_equity-Told :
        (last : Option F) (after : Alerts F)
        → baseline account before ≡ last
        → own_alerts account after
          ≡ own_alerts account (compare_equity account equity now last before)
        → Told account equity now before after
    unfolding compare_equity
    compare_equity-Told none after known same =
        let added = same ∙ adds (some now) in
        silent known added (baseline-added account equity now (some now) before after earlier added)
    compare_equity-Told (some last) after known same =
        elim (Bool-cases (abs (equity - last) < alert_threshold)) [
          | inl t ↦ still last known t (same ∙ rw t refl)
          | inr t ↦
              let added = same ∙ rw t (adds none) in
              moved last known t added
                (baseline-added account equity now none before after earlier added)
        ]

  Told-own :
      (account : String) (equity : F) (now : ℕ) (a b after : Alerts F)
      → own_alerts account b ≡ own_alerts account a
      → Told account equity now b after
      → Told account equity now a after
  Told-own account equity now a b after same (silent known added next) =
      silent (sym (baseline-own account b a same) ∙ known) (added ∙ rw same refl) next
  Told-own account equity now a b after same (still last known small kept) =
      still last (sym (baseline-own account b a same) ∙ known) small (kept ∙ same)
  Told-own account equity now a b after same (moved last known large added next) =
      moved last (sym (baseline-own account b a same) ∙ known) large (added ∙ rw same refl) next

  -- In a run over the live accounts that has an account once among them, off paper trading and with
  -- a latest live snapshot of an equity above zero, and whose own alerts are older than the run: when
  -- no last alert of it tells an equity, this one is noted as its baseline, delivered already; when
  -- the equity moved less than the threshold since the last alert, its alerts stay as they are;
  -- otherwise exactly one alert, not yet delivered, is added, and its equity is the baseline of the
  -- next run.
  pub check_equity_movement-Told :
      (before rest : List (LiveAccount F)) (account : LiveAccount F) (now : ℕ) (h : History F)
      (a : Alerts F) (s : Snapshot F)
      → account.paper_trading_enabled ≡ false
      → latest_live_snapshot account.id h ≡ some s
      → (s.equity <= of_ℕ 0) ≡ false
      → All (λ o. str_eq o.id account.id ≡ false) before
      → All (λ o. str_eq o.id account.id ≡ false) rest
      → All (λ n. lt_ℕ n.created_at now) (own_alerts account.id a)
      → Told account.id s.equity now a (check_equity_movement (before ++ account ∷ rest) now h a)
  unfolding check_equity_movement check_account_equity check_snapshot
  check_equity_movement-Told before rest account now h a s live known positive apart after earlier =
      let reached = check_equity_movement before now h a in
      let same = check_equity_movement-other account.id before now h a apart in
      let step : check_account_equity account now h reached
          ≡ compare_equity account.id s.equity now (baseline account.id reached) reached =
        rw (live, known, positive) refl in
      Told-own account.id s.equity now a reached _ same (
        compare_equity-Told account.id s.equity now reached (rw same earlier)
          (baseline account.id reached) _ refl
          (rw (check_equity_movement-append before (account ∷ rest) now h a) (
            check_equity_movement-other account.id rest now h
              (check_account_equity account now h reached) after
            ∙ rw step refl)))
