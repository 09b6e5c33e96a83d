-- ===== src/Backtest.antt =====
-- backend/app/services/backtester: the store of features (Population) and the replay of a strategy over
-- it (Engine). The other files prove.
pub mod Model
pub mod Population
pub mod Engine
pub mod Run
mod Drawdown
mod Groups
mod Refresh
mod Tests
