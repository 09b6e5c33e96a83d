-- ===== src/Registry.antt =====
-- backend/app/ml/registry.py, backend/app/models/model_registry.py and
-- backend/app/services/model_admin.py: the model registry and its single champion. Numbers holds
-- the floats, Model the table, Champion the steps that move the title, Selection the nightly rule,
-- Admin the manual operations; the other children prove.
pub mod Numbers
pub mod Model
pub mod Champion
pub mod Selection
pub mod Admin
pub mod Single
pub mod Rollback
pub mod Rule
pub mod Crown
mod Tests
