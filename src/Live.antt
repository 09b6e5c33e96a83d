-- ===== src/Live.antt =====
-- backend/app/services/live: the poll of matches in play (Ingestion), the recomputation after it
-- (Recompute) and the replay of updates to a client that reconnects (Events). The other files prove.
pub mod Ingestion
pub mod Recompute
mod Sound
mod Feed
mod Reconnect
mod Tests
