-- ===== src/Tests.antt =====
-- A small file system, a codec and requests, with the theorems at work on them.
pub mod World
mod Store
mod Actions
mod Checks
mod Transactions
