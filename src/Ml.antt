-- ===== src/Ml.antt =====
-- backend/app/ml: the order in which finished fixtures are walked (Chronology) and the quote that a
-- consumer uses (OddsSelection).
pub mod Chronology
pub mod OddsSelection
mod Tests
