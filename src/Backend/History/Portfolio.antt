-- ===== src/Backend/History/Portfolio.antt =====
-- The drawdown stop and get_portfolio_state of backend/app/db/sql_data_store.py.
use mathlib.Core.Option
use neuravex.Prelude.{
  ℕ, String, not, ◌&&◌, Option, none, some, List, [], ◌∷◌, ◌++◌, map, foldl, length, keep, leb, ltb,
  str_eq, later, or_else, if◌then◌else◌,
}
use neuravex.Prelude.Dict.{Dict, get, insert}
use neuravex.Float.{Float, ◌-◌, ◌*◌, ◌>◌, of_ℕ, max, truthy}
use neuravex.Risk.Limits.{PortfolioState, OpenPosition, drawdown_halt_cooldown}
use neuravex.Execution.Symbol.{symbol_of}
use neuravex.Backend.History.{
  Snapshot, OpenedPosition, History, Store, same_mode, latest_by, earliest_by, latest_time,
  group_max, day_start, still_halted, Activity, is_buy, is_trade, in_last_hour,
}

module _ {F : Type 0} where
  unfoldable pub latest_drawdown_halt : Store F → String → History F → Option ℕ
  latest_drawdown_halt store account h = latest_time (
      map (λ e. e.created_at)
        (keep (λ e. str_eq e.account_id account && same_mode store.simulated e.simulated) h.halts))

  unfoldable pub note_drawdown_halt : Store F → String → ℕ → History F → History F
  note_drawdown_halt store account now h =
      if still_halted (latest_drawdown_halt store account h) now then h else record h {
        halts =
            h.halts
            ++ record { account_id = account; simulated = store.simulated; created_at = now } ∷ [];
      }

  -- The snapshots of an account in the mode of the store.
  unfoldable pub own_snapshots : Store F → String → History F → List (Snapshot F)
  own_snapshots store account h =
      keep (λ s. str_eq s.account_id account && same_mode store.simulated s.is_simulated)
        h.snapshots

  -- The snapshots that the peak is taken from: once a stop has run out, those since its end.
  abbrev pub counted_snapshots : Option ℕ → ℕ → List (Snapshot F) → List (Snapshot F)
  counted_snapshots none now snapshots = snapshots
  counted_snapshots (some t) now snapshots =
      let resumed = later t drawdown_halt_cooldown in
      if leb resumed now then keep (λ s. leb resumed s.taken_at) snapshots else snapshots

  unfoldable pub simulated_activity : String → ℕ → History F → Activity
  simulated_activity account now h =
      let trades =
        keep (λ d. str_eq d.account_id account && d.executed && is_trade d.action) h.decisions in
      record {
        trades_this_hour = length (keep (λ d. in_last_hour now d.created_at) trades);
        last_entry_time =
            latest_time (map (λ d. d.created_at) (keep (λ d. is_buy d.action) trades));
        last_signal_time_by_symbol = group_max (map (λ d. (d.symbol, d.created_at)) trades);
      }

  abbrev closings : List (OpenedPosition F) → List (String × ℕ)
  closings [] = []
  closings (p ∷ ps) = elim p.row.closed_at [
    | none ↦ closings ps
    | some t ↦ (p.row.symbol, t) ∷ closings ps
  ]

  unfoldable pub live_activity : String → ℕ → History F → Activity
  live_activity account now h =
      let mine = keep (λ p. str_eq p.row.account_id account) h.positions in
      let opened = group_max (map (λ p. (p.row.symbol, p.opened_at)) mine) in
      record {
        trades_this_hour = length (keep (λ p. in_last_hour now p.opened_at) mine);
        last_entry_time = latest_time (map (λ p. p.opened_at) mine);
        last_signal_time_by_symbol = group_max (opened ++ group_max (closings mine));
      }

module _ {F : Type 0} ⦃fl : Float F⦄ where
  -- `func.max` of numbers
  unfoldable pub largest_of : List F → Option F
  largest_of [] = none
  largest_of (x ∷ xs) = elim (largest_of xs) [ none ↦ some x | some y ↦ some (max x y) ]

  unfoldable pub drawdown_peak_equity : Store F → String → ℕ → History F → Option F
  drawdown_peak_equity store account now h = largest_of (
      map (λ s. s.equity)
        (counted_snapshots (latest_drawdown_halt store account h) now
          (own_snapshots store account h)))

  abbrev paper_position : Dict F → String × F → Dict (OpenPosition F) → Dict (OpenPosition F)
  paper_position basis (asset, qty) rest =
      if not (str_eq asset "USDC") && (qty > of_ℕ 0)
      then (
        symbol_of asset "USDC",
        record {
          notional = qty * or_else (get asset basis) (of_ℕ 0);
          quantity = qty;
          entry_price = or_else (get asset basis) (of_ℕ 0);
        },
      )
        ∷ rest
      else rest

  unfoldable pub simulated_positions : Dict F → Dict F → Dict (OpenPosition F)
  simulated_positions basis [] = []
  simulated_positions basis (entry ∷ balances) =
      paper_position basis entry (simulated_positions basis balances)

  unfoldable pub live_open_positions : String → History F → Dict (OpenPosition F)
  live_open_positions account h =
      foldl
        (λ d p.
          insert p.row.symbol
            (record {
              notional = p.row.quantity * p.row.entry_price;
              quantity = p.row.quantity;
              entry_price = p.row.entry_price;
            })
            d)
        [] (keep (λ p. str_eq p.row.account_id account && p.row.is_open) h.positions)

  -- The equity that the day began with.
  unfoldable pub day_start_equity : ℕ → F → List (Snapshot F) → F
  day_start_equity now equity snapshots =
      elim (latest_by (λ s. s.taken_at) (keep (λ s. ltb s.taken_at (day_start now)) snapshots)) [
        | some s ↦ s.equity
        | none ↦
            elim (earliest_by (λ s. s.taken_at)
              (keep (λ s. leb (day_start now) s.taken_at) snapshots)) [
                | some s ↦ s.equity
                | none ↦ equity
              ]
      ]

  abbrev current_equity : F → List (Snapshot F) → F
  current_equity default snapshots = elim (latest_by (λ s. s.taken_at) snapshots) [
    | none ↦ default
    | some s ↦ s.equity
  ]

  -- `max(self.drawdown_peak_equity(account_id) or equity, equity)`
  abbrev pub peak_from : Option F → F → F
  peak_from none equity = max equity equity
  peak_from (some peak) equity = max (if truthy peak then peak else equity) equity

  unfoldable pub state_from : Store F → String → ℕ → History F → F → PortfolioState F
  state_from store account now h equity =
      let activity =
        if store.simulated then simulated_activity account now h else live_activity account now h in
      let start = day_start_equity now equity (own_snapshots store account h) in
      record {
        equity = equity;
        peak_equity = peak_from (drawdown_peak_equity store account now h) equity;
        cash = equity;
        open_positions =
            if store.simulated
            then simulated_positions (h.paper_positions account) (h.paper_balances account)
            else live_open_positions account h;
        daily_pnl = equity - start;
        daily_start_equity = start;
        trades_this_hour = activity.trades_this_hour;
        last_entry_time = activity.last_entry_time;
        last_signal_time_by_symbol = activity.last_signal_time_by_symbol;
      }

  -- `none` is the ValueError for an unknown account.
  unfoldable pub get_portfolio_state : Store F → String → ℕ → History F → Option (PortfolioState F)
  get_portfolio_state store account now h =
      Option.map
        (λ balance.
          state_from store account now h (
            current_equity (or_else store.fallback_equity balance) (own_snapshots store account h)))
        (h.starting_balance account)
