-- ===== src/Backend.antt =====
-- backend/app: the rate limit, the scheduled tasks, and what is kept of an account.
pub mod RateLimit
pub mod LiveExits
pub mod History
pub mod Learning
pub mod Equity
pub mod Wallet
pub mod SimulatedExits
pub mod PaperState
