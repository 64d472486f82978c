-- ===== src/Transaction.antt =====
-- crates/opticcode-tools/src/apply_transaction.rs: patches are applied to a workspace as a journalled
-- transaction with backups, and rolled back on any error.
pub mod Model
pub mod Machine
pub mod Logic
pub mod Targets
pub mod TargetPaths
pub mod Reads
pub mod Journal
pub mod Appends
pub mod Mutations
pub mod Writes
pub mod Applying
pub mod Restoring
pub mod Foreign
pub mod Git
pub mod GitReads
pub mod Rollback
pub mod InFlight
pub mod Undone
pub mod RolledBack
pub mod Sorting
pub mod Sorted
pub mod Directories
pub mod Outside
pub mod Prepare
pub mod BackedUp
pub mod History
pub mod Inspect
pub mod Execute
pub mod Atomic
pub mod Preparing
pub mod WholeRun
pub mod Recover
pub mod Rechecked
pub mod Recovered
pub mod Recovery
pub mod Runs
pub mod Accepted
pub mod Listing
pub mod Listed
