-- ===== src/Mcp.antt =====
-- crates/elasticctl-mcp: the server of tools.
pub mod Truncation
pub mod Frames
pub mod Sanitize
