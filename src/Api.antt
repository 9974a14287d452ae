-- ===== src/Api.antt =====
-- The crate `elasticctl-api`.
pub mod Model
pub mod Normalize
pub mod Drift
pub mod Transaction
pub mod Selection
pub mod Pointers
pub mod Exceptions
pub mod Report
pub mod Push
pub mod Scope
pub mod Reconcile
pub mod StateDiff
pub mod Pull
