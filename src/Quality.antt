-- ===== src/Quality.antt =====
-- backend/app/services/data_quality.py: the report on the tables that the ingestion writes. Model
-- holds the report, Checks the tests of a fixture and of two fixtures, Quotes the walk over the odds
-- and their snapshots, Coverage the rows of a season, Report the whole.
pub mod Model
pub mod Checks
pub mod Quotes
pub mod Coverage
pub mod Report
mod Counts
mod Warnings
mod Reference
mod Exact
mod Timely
mod Totals
mod Tests
