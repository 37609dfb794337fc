-- ===== src/Agent/Tick.antt =====
-- A pass over the symbols: `flatten_all_positions` and `run_tick`.
use neuravex.Prelude.{
  String, Bool, true, false, not, ◌||◌, Option, none, some, List, [], ◌∷◌, ◌++◌, if◌then◌else◌,
}
use neuravex.Prelude.Dict.{Dict}
use neuravex.Float.{Float, ◌<=◌, of_ℕ}
use neuravex.Risk.Plan.{short}
use neuravex.Risk.Limits.{
  PortfolioState, OpenPosition, Limit, max_drawdown, RiskLimitBreach, check_account_wide_limits,
}
use neuravex.Execution.Paper.{sell as sell_side}
use neuravex.Supervisor.{SupervisorVerdict, no_verdict, evaluate_supervisor}
use neuravex.Decision.{Decision, sell, zero_breakdown}
use neuravex.Decision.Reasons.{flattened, close_failed}
use neuravex.Agent.{
  AgentConfig, Effect, World, Agent, Outcome, value, raised, emit, event_saved, halt_noted,
}
use neuravex.Agent.Orders.{save_decision, close_position}
use neuravex.Agent.Process.{
  Processed, nothing, decided, exception, is_no_trade, is_quiet, process_symbol,
}

module _ {F : Type 0} ⦃fl : Float F⦄ where
  module _ (w : World F) (cfg : AgentConfig F) where
    unfoldable pub flatten_decision : String → F → Decision F
    flatten_decision symbol quantity = record {
      symbol = symbol;
      action = sell;
      direction = some short;
      confidence = of_ℕ 1;
      score = zero_breakdown;
      reasons_for = flattened quantity ∷ [];
      reasons_against = [];
      contributing_signals = [];
      id = none;
      executed = false;
      entry_regime = none;
    }

    -- One round of `flatten_all_positions`: a failure is noted and does not stop the rest.
    unfoldable pub flattened_one : Outcome (Decision F) × Agent F → Decision F × Agent F
    flattened_one (value d, a) = save_decision w d a
    flattened_one (raised d, a) =
        save_decision w (record d { reasons_against = d.reasons_against ++ close_failed ∷ [] })
          (emit (event_saved "flatten_close_failed") a)

    unfoldable pub flatten_positions :
        Bool → Dict (OpenPosition F) → Agent F → List (Decision F) × Agent F
    unfolding flattened_one flatten_decision
    flatten_positions ignore_dry_run [] a = ([], a)
    flatten_positions ignore_dry_run ((symbol, p) ∷ rest) a =
        if (p.quantity <= of_ℕ 0) || w.has_pending_order a.history symbol sell_side
        then flatten_positions ignore_dry_run rest a
        else let closed = flattened_one (
            close_position w cfg symbol p.quantity (flatten_decision symbol p.quantity)
              ignore_dry_run a) in
          let others = flatten_positions ignore_dry_run rest closed.1 in
          (closed.0 ∷ others.0, others.1)

    unfoldable pub flatten_all_positions : Bool → Agent F → List (Decision F) × Agent F
    unfolding flatten_positions
    flatten_all_positions ignore_dry_run a =
        flatten_positions ignore_dry_run a.state.open_positions a

    -- What the loop of `run_tick` keeps of a processed symbol.
    unfoldable pub recorded : String → Processed F × Agent F → List (Decision F) × Agent F
    recorded symbol (nothing, a) = ([], a)
    recorded symbol (exception, a) = ([], emit (event_saved "symbol_processing_failed") a)
    recorded symbol (decided d, a) =
        if not (is_no_trade d.action) || not (is_quiet symbol a)
        then (let saved = save_decision w d a in (saved.0 ∷ [], saved.1))
        else (d ∷ [], a)

    unfoldable pub process_symbols : List String → Agent F → List (Decision F) × Agent F
    unfolding recorded
    process_symbols [] a = ([], a)
    process_symbols (symbol ∷ symbols) a =
        let one = recorded symbol (process_symbol w cfg symbol a) in
        let others = process_symbols symbols one.1 in (one.0 ++ others.0, others.1)

    -- `_load_supervisor_verdict`
    unfoldable pub load_supervisor_verdict : Agent F → SupervisorVerdict F
    load_supervisor_verdict a =
        if cfg.supervisor_enabled
        then elim (w.recent_closed_trades a.history) [
          | none ↦ no_verdict
          | some trades ↦ evaluate_supervisor trades (w.clock a.history)
        ]
        else no_verdict

    abbrev pub is_drawdown : Limit → Bool
    is_drawdown max_drawdown = true
    is_drawdown _ = false

    -- The rest of a tick, from the outcome of the account-wide check.
    unfoldable pub guarded_tick : Agent F → Option RiskLimitBreach → List (Decision F) × Agent F
    unfolding process_symbols
    guarded_tick a (some breach) =
        let reported = emit (event_saved "risk_limit_breach") a in
        let noted = if is_drawdown breach.limit then emit halt_noted reported else reported in
        if breach.should_flatten then flatten_all_positions true noted else ([], noted)
    guarded_tick a none =
        process_symbols cfg.symbols
          (record a { verdict = load_supervisor_verdict a; breadth = none })

    -- A tick on a portfolio that was loaded.
    unfoldable pub tick_on : Agent F → List (Decision F) × Agent F
    unfolding guarded_tick
    tick_on a = guarded_tick a (
        check_account_wide_limits a.state cfg.max_daily_loss cfg.max_drawdown cfg.min_balance_floor)

    -- A tick from what `get_portfolio_state` answers.
    unfoldable pub start_tick :
        List String → Option (PortfolioState F) → List (Decision F) × List (Effect F)
    start_tick quiet none = ([], event_saved "state_load_failed" ∷ [])
    start_tick quiet (some state) =
        let end = tick_on (record {
          state = state;
          quiet_symbols = quiet;
          verdict = no_verdict;
          breadth = none;
          history = [];
        }) in
        (end.0, end.1.history)

    -- `run_tick`, with the symbols that an earlier tick left quiet: the decisions and the effects.
    unfoldable pub run_tick : List String → List (Decision F) × List (Effect F)
    unfolding start_tick
    run_tick quiet = start_tick quiet w.get_portfolio_state
