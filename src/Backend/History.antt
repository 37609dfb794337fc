-- ===== src/Backend/History.antt =====
-- What backend/app/db/sql_data_store.py reads back of an account: snapshots, drawdown stops, positions
-- and executed decisions, and get_portfolio_state, which the agent starts a tick from. Times are in
-- seconds; where the database may return any of several rows of one time, the first of the list counts.
pub mod Portfolio
pub mod Drawdown
pub mod Latest
use Prim.Native.Nat.{◌-◌ as monus, ◌%◌ as mod_ℕ}
use neuravex.Prelude.{
  ℕ, String, Bool, true, false, not, Option, none, some, List, [], ◌∷◌, foldl, leb, ltb, later,
  if◌then◌else◌,
}
use neuravex.Prelude.Dict.{Dict, get, insert}
use neuravex.Risk.Limits.{drawdown_halt_cooldown}
use neuravex.Decision.{Action, buy, no_trade}
use neuravex.Execution.Pending.{Position, Opening}

-- The columns of `portfolio_snapshots` that are read.
pub record Snapshot (F : Type 0) : Type 0 where
  pub account_id : String
  pub equity : F
  pub taken_at : ℕ
  pub is_simulated : Bool

-- A "drawdown_halt_sim" or "drawdown_halt_live" row of `risk_events`.
pub record HaltEvent : Type 0 where
  pub account_id : String
  pub simulated : Bool
  pub created_at : ℕ

-- The columns of `ai_decisions` that are read.
pub record DecisionRow : Type 0 where
  pub account_id : String
  pub symbol : String
  pub action : Action
  pub executed : Bool
  pub created_at : ℕ
  pub opening : Opening

-- A row of `positions` with the time of its opening.
pub record OpenedPosition (F : Type 0) : Type 0 where
  pub opened_at : ℕ
  pub row : Position F

-- The rows, and what an account's settings say: `starting_balance` is none for an unknown account.
pub record History (F : Type 0) : Type 0 where
  pub starting_balance : String → Option F
  pub snapshots : List (Snapshot F)
  pub halts : List HaltEvent
  pub decisions : List DecisionRow
  pub positions : List (OpenedPosition F)
  pub paper_balances : String → Dict F
  pub paper_positions : String → Dict F

-- `SqlDataStore(...)`
pub record Store (F : Type 0) : Type 0 where
  pub simulated : Bool
  pub fallback_equity : Option F
  pub shares_strategy_record : Bool

abbrev pub same_mode : Bool → Bool → Bool
same_mode true b = b
same_mode false b = not b

-- The entry with the latest or the earliest time.
abbrev pub latest_by : {A : Type 0} → (A → ℕ) → List A → Option A
latest_by time [] = none
latest_by time (x ∷ xs) = elim (latest_by time xs) [
  | none ↦ some x
  | some y ↦ if ltb (time x) (time y) then some y else some x
]

abbrev pub earliest_by : {A : Type 0} → (A → ℕ) → List A → Option A
earliest_by time [] = none
earliest_by time (x ∷ xs) = elim (earliest_by time xs) [
  | none ↦ some x
  | some y ↦ if ltb (time y) (time x) then some y else some x
]

-- `func.max` of times
abbrev pub latest_time : List ℕ → Option ℕ
latest_time ts = latest_by (λ t. t) ts

-- `existing is None or ts > existing`
abbrev note_time : Dict ℕ → String × ℕ → Dict ℕ
note_time d (symbol, ts) = elim (get symbol d) [
  | none ↦ insert symbol ts d
  | some existing ↦ if ltb existing ts then insert symbol ts d else d
]

-- `group_by(symbol)` with `func.max`
abbrev pub group_max : List (String × ℕ) → Dict ℕ
group_max rows = foldl note_time [] rows

abbrev pub day_start : ℕ → ℕ
day_start now = monus now (mod_ℕ now 86_400)

abbrev pub still_halted : Option ℕ → ℕ → Bool
still_halted none now = false
still_halted (some t) now = ltb now (later t drawdown_halt_cooldown)

-- The trades of the last hour and the times of the last entry and the last signals.
pub record Activity : Type 0 where
  pub trades_this_hour : ℕ
  pub last_entry_time : Option ℕ
  pub last_signal_time_by_symbol : Dict ℕ

abbrev pub is_buy : Action → Bool
is_buy buy = true
is_buy _ = false

abbrev pub is_trade : Action → Bool
is_trade no_trade = false
is_trade _ = true

-- `created_at >= now - 1 hour`, moved so that nothing is subtracted.
abbrev pub in_last_hour : ℕ → ℕ → Bool
in_last_hour now t = leb now (later t 3_600)
