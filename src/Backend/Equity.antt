-- ===== src/Backend/Equity.antt =====
-- The alerts about the equity of a live account: check_equity_movement of backend/app/core/tasks.py. An
-- account comes once in a run.
pub mod Moves
use mathlib.Core.Option
use neuravex.Prelude.{
  ℕ, suc, String, Bool, not, ◌&&◌, Option, none, some, List, [], ◌∷◌, ◌++◌, keep, str_eq,
  if◌then◌else◌,
}
use neuravex.Float.{Float, ◌-◌, ◌<◌, ◌<=◌, of_ℕ, abs}
use neuravex.Backend.History.{Snapshot, History, latest_by}
use neuravex.Backend.LiveExits.{LiveAccount}

-- A row of `pending_notifications`; `equity` is what its `meta` says of the equity.
pub record Notification (F : Type 0) : Type 0 where
  pub account_id : String
  pub kind : String
  pub equity : Option F
  pub created_at : ℕ
  pub delivered_at : Option ℕ

-- The rows, and how many mails were sent.
pub record Alerts (F : Type 0) : Type 0 where
  pub notifications : List (Notification F)
  pub emails : ℕ

module _ {F : Type 0} where
  abbrev pub is_move : String → Notification F → Bool
  is_move account n = str_eq n.account_id account && str_eq n.kind "equity_move"

  -- The equity of the last alert.
  unfoldable pub baseline : String → Alerts F → Option F
  baseline account a =
      Option.bind (latest_by (λ n. n.created_at) (keep (is_move account) a.notifications))
        (λ n. n.equity)

  unfoldable pub latest_live_snapshot : String → History F → Option (Snapshot F)
  latest_live_snapshot account h =
      latest_by (λ s. s.taken_at)
        (keep (λ s. str_eq s.account_id account && not s.is_simulated) h.snapshots)

  abbrev pub move_at : String → F → ℕ → Option ℕ → Notification F
  move_at account equity now delivered = record {
    account_id = account;
    kind = "equity_move";
    equity = some equity;
    created_at = now;
    delivered_at = delivered;
  }

module _ {F : Type 0} ⦃fl : Float F⦄ where
  -- `_EQUITY_ALERT_THRESHOLD_USDC`
  abbrev pub alert_threshold : F
  alert_threshold = of_ℕ 5

  -- The first time the baseline is set without a word; later a move of the threshold is told.
  unfoldable pub compare_equity : String → F → ℕ → Option F → Alerts F → Alerts F
  compare_equity account equity now none a = record a {
    notifications = a.notifications ++ move_at account equity now (some now) ∷ [];
  }
  compare_equity account equity now (some last) a =
      if abs (equity - last) < alert_threshold then a else record {
        notifications = a.notifications ++ move_at account equity now none ∷ [];
        emails = suc a.emails;
      }

  unfoldable pub check_snapshot : String → ℕ → Option (Snapshot F) → Alerts F → Alerts F
  check_snapshot account now none a = a
  check_snapshot account now (some s) a =
      if s.equity <= of_ℕ 0 then a else compare_equity account s.equity now (baseline account a) a

  -- One account of the loop.
  unfoldable pub check_account_equity : LiveAccount F → ℕ → History F → Alerts F → Alerts F
  check_account_equity account now h a =
      if account.paper_trading_enabled
      then a
      else check_snapshot account.id now (latest_live_snapshot account.id h) a

  unfoldable pub check_equity_movement : List (LiveAccount F) → ℕ → History F → Alerts F → Alerts F
  check_equity_movement [] now h a = a
  check_equity_movement (account ∷ rest) now h a =
      check_equity_movement rest now h (check_account_equity account now h a)
