-- ===== src/Api/Transaction.antt =====
-- crates/elasticctl-api/src/state/transaction.rs: a pull replaces the files of a mirror as one
-- transaction, with a journal from which an interrupted pull is rolled back.
pub mod FilePath
pub mod Disk
pub mod Ops
pub mod Phase
pub mod Frame
pub mod Journal
pub mod Checks
pub mod Recover
pub mod Replace
pub mod Within
pub mod Installed
