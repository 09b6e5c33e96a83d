-- ===== src/Promo.antt =====
-- backend/app/services/promo.py and backend/app/models/promo.py: promo codes. Model holds the
-- tables, Codes the text of a code, Batch generation and the kill switch, Redeem redemption; the
-- other children prove.
pub mod Model
pub mod Codes
pub mod Batch
pub mod Redeem
pub mod Slots
pub mod Kill
pub mod Outcome
mod Once
pub mod Generate
pub mod Typing
mod Tests
mod BatchTests
