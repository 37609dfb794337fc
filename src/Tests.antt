-- ===== src/Tests.antt =====
-- Runs of the model at concrete numbers, in fixed point.
mod Risk
mod Trading
mod Orders
mod Agent
mod Backend
mod Accounts
mod Simulation
mod Strategies
