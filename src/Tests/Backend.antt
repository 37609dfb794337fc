-- ===== src/Tests/Backend.antt =====
-- The rate limit, the fast loop over live positions and the portfolio's history at concrete numbers.
use Prim.Native.Nat.{◌<◌ as lt_ℕ}
use neuravex.Prelude.{
  ℕ, suc, ◌≡◌, refl, inl, true, false, none, some, List, [], ◌∷◌, ◌++◌, All, any, arith, later,
}
use neuravex.Float.{of_ℕ}
use neuravex.Float.Fixed.{Fixed, fixed_float}
use neuravex.Risk.Limits.{PortfolioState, drawdown_halt_cooldown}
use neuravex.Execution.Paper.{sell}
use neuravex.Execution.Pending.{
  PendingExecution, Position, Database, http, claim_execution, is_offered,
}
use neuravex.Backend.RateLimit.{
  RedisServer, Limiter, Request, passed, count_in_redis, dispatch, serve,
}
use neuravex.Backend.RateLimit.Window.{answers, serve-answers, serve-recovers}
use neuravex.Backend.RateLimit.Fallback.{serve-Forgets}
use neuravex.Backend.LiveExits.{
  LiveAccount, Surroundings, already_pending, check_position, live_positions, queued_sales,
  sweep_account,
}
use neuravex.Backend.LiveExits.Sales.{is_about, check_position-Backstop, sweep_account-Once}
use neuravex.Backend.LiveExits.Stuck.{check_position-Stuck}
use neuravex.Backend.History.{HaltEvent, History, Snapshot, Store}
use neuravex.Backend.History.Portfolio.{
  day_start_equity, drawdown_peak_equity, get_portfolio_state, largest_of, latest_drawdown_halt,
  note_drawdown_halt, own_snapshots, simulated_activity, simulated_positions, state_from,
}
use neuravex.Backend.History.Drawdown.{
  note_drawdown_halt-Once, get_portfolio_state-Resumes, get_portfolio_state-Separate,
}

abbrev pub number : ℕ → Fixed
number n = of_ℕ n

-- A Redis that counts every key together and never raises.
abbrev server : RedisServer ℕ
server = record {
  connects = λ n. true;
  incr = λ key n. (some (suc n), suc n);
  expire = λ key seconds n. (true, n);
}

abbrev alone : Limiter ℕ
alone = record { in_process_counters = []; redis_checked = true; redis = 0 }

abbrev fresh : Limiter ℕ
fresh = record { in_process_counters = []; redis_checked = false; redis = 0 }

abbrev requests : List Request
requests =
    record { client = "a"; at = 1 }
    ∷ record { client = "b"; at = 5 }
    ∷ record { client = "a"; at = 7 }
    ∷ []

serve-answers_example : (serve server requests alone).0 ≡ answers [] requests
serve-answers_example =
    serve-answers server requests alone (inl refl) refl
      (omega arith, (omega arith, (omega arith, tt)))

serve-recovers_example :
    (dispatch server (record { client = "a"; at = 70_000_000 }) (serve server requests alone).1).0
    ≡ passed
serve-recovers_example =
    serve-recovers server requests (record { client = "a"; at = 70_000_000 }) alone (inl refl) refl
      (omega arith, (omega arith, (omega arith, tt))) (omega arith)
      ((λ e. omega arith), ((λ e. omega arith), ((λ e. omega arith), tt)))

serve-Forgets_example :
    let end = serve server (record { client = "c"; at = 0 } ∷ requests) fresh in
    let first = count_in_redis server "c" (record fresh { redis_checked = true }) in
    (end.1.redis ≡ first.1.redis) × (end.0 ≡ first.0 ∷ answers [] requests)
serve-Forgets_example =
    serve-Forgets server (record { client = "c"; at = 0 }) requests fresh refl refl refl
      (omega arith, (omega arith, (omega arith, tt)))

abbrev pub account : LiveAccount Fixed
account = record { id = "acc"; paper_trading_enabled = false; max_balance_target = none }

abbrev surroundings : ℕ → Fixed → Surroundings Fixed
surroundings now price = record { now = now; bid = λ p. some price; new_id = λ p. "new" }

abbrev pub position : Position Fixed
position = record {
  account_id = "acc";
  symbol = "A/USDC";
  quantity = number 2;
  entry_price = number 100;
  stop_loss = none;
  take_profit_1 = none;
  take_profit_2 = none;
  is_open = true;
  closed_at = none;
  realized_pnl = none;
  opening_decision_id = none;
}

abbrev pub database : List (PendingExecution Fixed) → Database Fixed
database executions = record {
  executions = executions;
  positions = position ∷ [];
  decisions = [];
  strategies = [];
  trades = [];
}

check_position-Backstop_example :
    (row : PendingExecution Fixed) × (check_position account
        (surroundings 50 (number 90))
        (database [])
        position
      ≡ some row)
    × (row.side ≡ sell)
    × (row.symbol ≡ "A/USDC")
    × (row.quantity ≡ number 2)
    × ((now : ℕ) → lt_ℕ now (later 50 300) → is_offered "acc" now row ≡ true)
unfolding already_pending
check_position-Backstop_example =
    check_position-Backstop account (surroundings 50 (number 90)) (database []) position (number 90)
      refl refl refl refl

sweep_account-Once_example :
    let after = sweep_account account (surroundings 50 (number 90)) (database []) in
    All
      (λ row.
        any
          (is_about row.symbol)
          (queued_sales account (surroundings 80 (number 70)) after (live_positions account after))
        ≡ false)
      (queued_sales account
        (surroundings 50 (number 90))
        (database [])
        (live_positions account (database [])))
sweep_account-Once_example =
    sweep_account-Once account (surroundings 50 (number 90)) (surroundings 80 (number 70))
      (database []) refl

abbrev unclaimed : PendingExecution Fixed
unclaimed = record {
  id = "old";
  account_id = "acc";
  decision_id = none;
  symbol = "A/USDC";
  side = sell;
  quantity = number 2;
  stop_loss = none;
  take_profit_1 = none;
  take_profit_2 = none;
  status = "pending";
  claimed_at = none;
  exchange_order_id = none;
  average_fill_price = none;
  filled_quantity = none;
  failure_reason = none;
  expires_at = 350;
}

check_position-Stuck_example :
    (is_offered "acc" 400 unclaimed ≡ false)
    × (claim_execution "old" 400 (database (unclaimed ∷ []))
        ≡ (http 410, database (unclaimed ∷ [])))
    × ((s : Surroundings Fixed)
        → check_position account s (database (unclaimed ∷ [])) position ≡ none)
check_position-Stuck_example =
    check_position-Stuck account "old" (database (unclaimed ∷ [])) unclaimed position 400 refl refl
      refl refl refl (omega arith)

abbrev pub store : Store Fixed
store = record { simulated = true; fallback_equity = none; shares_strategy_record = false }

abbrev snapshot : Fixed → ℕ → Snapshot Fixed
snapshot equity at = record {
  account_id = "acc";
  equity = equity;
  taken_at = at;
  is_simulated = true;
}

abbrev pub history : History Fixed
history = record {
  starting_balance = λ account. some (number 1_000);
  snapshots = snapshot (number 2_000) 100 ∷ snapshot (number 1_200) 500 ∷ [];
  halts = record { account_id = "acc"; simulated = true; created_at = 600 } ∷ [];
  decisions = [];
  positions = [];
  paper_balances = λ account. [];
  paper_positions = λ account. [];
}

note_drawdown_halt-Once_example :
    let noted = note_drawdown_halt store "acc" 700 history in
    (t : ℕ) × (latest_drawdown_halt store "acc" noted ≡ some t)
    × lt_ℕ 700 (later t drawdown_halt_cooldown)
    × ((next : ℕ)
        → lt_ℕ next (later t drawdown_halt_cooldown)
        → note_drawdown_halt store "acc" next noted ≡ noted)
note_drawdown_halt-Once_example = note_drawdown_halt-Once store "acc" 700 history

-- The portfolio a week after the stop.
abbrev resumed : PortfolioState Fixed
resumed = record {
  equity = number 1_200;
  peak_equity = number 1_200;
  cash = number 1_200;
  open_positions = [];
  daily_pnl = number 0;
  daily_start_equity = number 1_200;
  trades_this_hour = 0;
  last_entry_time = none;
  last_signal_time_by_symbol = [];
}

get_portfolio_state-Resumes_example : resumed.peak_equity ≡ resumed.equity
unfolding latest_drawdown_halt own_snapshots get_portfolio_state state_from drawdown_peak_equity
    simulated_positions day_start_equity simulated_activity largest_of
get_portfolio_state-Resumes_example =
    get_portfolio_state-Resumes store "acc" 700_000 600 history {state = resumed} refl (omega arith)
      (refl, (refl, tt)) refl

abbrev live_snapshot : Snapshot Fixed
live_snapshot = record {
  account_id = "acc";
  equity = number 50;
  taken_at = 650;
  is_simulated = false;
}

abbrev live_halt : HaltEvent
live_halt = record { account_id = "acc"; simulated = false; created_at = 650 }

get_portfolio_state-Separate_example :
    get_portfolio_state store "acc" 700 (record history {
      snapshots = history.snapshots ++ live_snapshot ∷ [];
      halts = history.halts ++ live_halt ∷ [];
    })
    ≡ get_portfolio_state store "acc" 700 history
get_portfolio_state-Separate_example =
    get_portfolio_state-Separate store "acc" 700 history live_snapshot live_halt refl refl
