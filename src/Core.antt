-- ===== src/Core.antt =====
-- The crate `elasticctl-core`.
pub mod Error
pub mod Transport
pub mod JsonRange
