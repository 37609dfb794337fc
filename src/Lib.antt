-- ===== src/Lib.antt =====
-- Neuravex: the trading engine and the part of its backend that places and tracks orders.
--
-- The program runs an agent (trading_engine/agent.py) on a schedule. A tick reads the portfolio of an
-- account, checks the limits of the whole account, and then goes through the symbols: strategies make
-- signals from candles and a market regime, the decision engine weighs them into a decision, a ladder
-- of gates and the risk engine approve or refuse it, a size is computed, and the order goes either to
-- an exchange adapter or, as a pending execution, to the owner's phone, which claims it and reports
-- the fill to the backend (backend/app/api/execution.py). A supervisor looks at the closed trades and
-- lowers the stake or blocks a strategy.
--
-- Which file models which part:
--   Float: Python's float, as an interface of operations; the laws of IEEE 754 that the theorems need
--     are the record IsIeee, which a theorem takes where it needs it. Float/Fixed is an instance that
--     runs, with six decimal digits, and meets the laws.
--   Market/Indicators: trading_engine/signals/indicators.py, over numpy as the interface Market/Numpy.
--   Market/Regime: trading_engine/regime/regime_detector.py.
--   Risk/Plan, Risk/Sizing, Risk/Exits, Risk/Limits: risk_plan.py, position_sizing.py, exits.py and
--     risk_engine.py of trading_engine/risk. The children hold the theorems.
--   Strategies/Signal, Performance, Trend, Momentum, Reversion, Breakout: base.py, performance.py,
--     trend_following.py, momentum.py, mean_reversion.py and breakout.py of trading_engine/strategies.
--     Strategies/Arrays has the slices of arrays that they share, Strategies/Regimes the list of them
--     that backend/app/core/tasks.py gives to the agent. Gates and Regimes hold the theorems.
--   Decision: trading_engine/decision_engine.py (score_signals). Decision/Reasons has the reasons that
--     the code formats as text.
--   Supervisor: trading_engine/supervisor.py.
--   Execution/LiveGuard, Monitor, Symbol, Universe, Paper: live_guard.py, position_monitor.py,
--     market_universe.py, route_costs.py and paper_exchange.py of trading_engine/execution.
--   Execution/Rows, Execution/Pending: backend/app/api/execution.py with what backend/app/db/sql_data_store.py,
--     backend/app/db/session.py and backend/app/api/emergency.py do with the same rows, and the rows
--     themselves. Claims, Once and Positions hold the theorems.
--   Agent: trading_engine/agent.py. Entry has the gates of _process_symbol, Orders the two paths of an
--     execution and what they do to the portfolio of the tick, Process the rest of _process_symbol, Tick
--     flatten_all_positions and run_tick. Effects, Passes, Safety, Gates, Sales, Held and Room hold the
--     theorems.
--   Backtest, Backtest/Engine: trading_engine/backtesting/engine.py, the replay of the same strategies,
--     decision engine and risk rules over recorded candles. Rounds is the rule for what its bars keep,
--     Ledger and Lookahead hold the theorems.
--   Backend/RateLimit: backend/app/core/rate_limit.py. Window relates its pruned histories to a log that
--     forgets nothing, Fallback is about Redis.
--   Backend/LiveExits: check_live_exits of backend/app/core/tasks.py, the fast loop over live positions,
--     on the rows of Execution/Pending. Sales and Stuck hold the theorems.
--   Backend/History: what backend/app/db/sql_data_store.py reads back of an account. Portfolio has the
--     drawdown stops and get_portfolio_state, which a tick of the agent starts from; Drawdown holds the
--     theorems.
--   Backend/Learning: record_realized_trade and recent_closed_trades of the same file, which the
--     supervisor learns from. Recall holds the theorem.
--   Backend/Equity: check_equity_movement of backend/app/core/tasks.py. Moves holds the theorem.
--   Backend/Wallet: report_balance, the adoption of untracked holdings and reset_baseline of
--     backend/app/api/dashboard.py, with str.upper as a parameter. Adoption holds the theorem.
--   Backend/SimulatedExits, Backend/PaperState: _apply_simulated_exits, _save_paper_snapshot and
--     _persist_paper_state of backend/app/core/tasks.py, on the paper exchange. Kept and Restored hold
--     the theorems, Execution/Paper/Sales the lemmas on a sale.
--   Tests: runs at concrete numbers.
--
-- How state is modelled. The paper exchange, the database rows and the agent are records that every
-- operation takes and returns, also beside an exception. The agent keeps the list of its effects (the
-- calls that change something outside of it), and the exchange and the store are a record of functions
-- from that list, so nothing is assumed about an answer after an order. A request handler runs in a
-- transaction that keeps its writes after a response and drops them after an exception. Times are
-- natural numbers of seconds (of microseconds in the rate limit), identifiers are texts, and no loop
-- needs fuel: each one is structural; the loop over the bars of a backtest counts the bars that are
-- left. The session of the database does not flush by itself, so the queries of one account's turn in
-- check_live_exits, or of one report of the wallet, do not see the rows that it has added.
--
-- Not modelled: log messages and the texts of exceptions, reasons and notifications; the scheduled
-- tasks that only build and start an agent, and the correlation matrix; the market data adapters, the
-- other routers, the login and the set-up of the server, which are input and output or glue. Redis is
-- a parameter: an interface over a state of its own. Calls of the store do not raise in the model of
-- the agent, except get_portfolio_state and recent_closed_trades, whose exceptions the agent catches.
pub mod Prelude
pub mod Float
pub mod Market
pub mod Risk
pub mod Execution
pub mod Strategies
pub mod Supervisor
pub mod Decision
pub mod Agent
pub mod Backtest
pub mod Backend
pub mod Tests
