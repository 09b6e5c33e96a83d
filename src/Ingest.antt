-- ===== src/Ingest.antt =====
-- backend/app/services/ingestion, with providers/id_mapping.py and core/seasons.py: fixtures from
-- several sources become one table. Seasons reads season labels, Model holds the tables, Action the
-- effects, Mapping and ManualMapping the identity of teams and leagues. Fixtures finds and inserts a
-- fixture, Quotes stores its odds, Reconcile and Steps correct it, Records takes the records of a
-- source, Runner and Pairs record the runs. The other modules hold proofs.
pub mod Seasons
pub mod Model
pub mod Action
pub mod Mapping
pub mod ManualMapping
pub mod Fixtures
pub mod Quotes
pub mod Reconcile
pub mod Steps
pub mod Records
pub mod Runner
pub mod Pairs
mod Triples
pub mod Rows
pub mod TimeRule
pub mod Keeps
pub mod Timely
mod Rule
pub mod History
mod Resume
mod Sources
mod Again
mod Idempotent
mod Count
mod Rerun
mod Labels
pub mod Tests
