-- ===== src/Lib.antt =====
-- Two parts of OpticCode. The policy crate, crates/opticcode-policy, decides whether an assistant may
-- run an action, and whether it needs a person's approval first. The transactions of
-- crates/opticcode-tools/src/apply_transaction.rs apply the files of a patch to a workspace and roll
-- them back.
--
-- A client builds a request (crates/opticcode-policy/src/model.rs): who asks, in which mode, for which
-- action, against which observed workspace. `PolicyEngine::check` (src/engine.rs of the crate)
-- validates the request, inspects every path that the action names (src/paths.rs), evaluates the rule
-- of the action, and where the rule asks for an approval spends one (src/approval.rs). It records an
-- audit event (src/audit.rs) and returns a preflight that is revalidated before the execution.
--
-- A transaction (`execute_apply_transaction`) validates and sorts its mutations, locks the workspace,
-- stores the patch, a backup of every target and a manifest in a run directory, and journals that it is
-- prepared. It then writes the targets, verifies them and the Git state, and commits. On any error it
-- restores the targets from their backups, in reverse, and journals whether that worked. A later
-- rollback or recovery of the transaction (`rollback_apply_transaction`) first inspects the run
-- directory, and goes on only if the manifest, the backups and the journal agree.
--
-- Files, with their sources in crates/opticcode-policy/src:
--   Prelude, Text, FilePath   lists, results, strings and paths of the standard library
--   Host                      std::fs, std::env, blake3 and serde_json, as parameters
--   Model, Model/Actions      model.rs
--   Paths, Paths/*            paths.rs: `inspect_path`, `inspect_root`, `revalidate`
--   Rules                     engine.rs: `RuleOutcome`, `allowed`, `denied`; the accumulated paths
--   Validate, Request         engine.rs: the validators, `validate_request`
--   Worktree                  engine.rs: `validated_active_worktree` and what it calls
--   Process, Process/*        engine.rs: `evaluate_process` and its tests on a build command
--   Evaluate, Evaluate/*      engine.rs: `evaluate_action`, one function for each branch
--   Approval, Approval/*      approval.rs: `issue_at`, `consume_at`
--   Audit, Audit/*            audit.rs: `record` and `rotate_to_limits`
--   Engine, Engine/*          engine.rs: `evaluate`, `explain`, `check`, `issue_approval`,
--                             `approval_binding`, `PolicyPreflight::revalidate`
-- and with crates/opticcode-tools/src/apply_transaction.rs as the source:
--   Transaction/Model         the requests, manifests, events and results
--   Transaction/Machine       the workspace, the run directory and the journal, with their host
--   Transaction/Logic         triples over the workspace for the operations
--   Transaction/Targets       `validate_relative_path` to `read_validated_target`; with TargetPaths, Reads
--   Transaction/Journal       `TransactionJournal`, `write_new_atomic`; with Appends, Runs,
--                             Accepted
--   Transaction/Mutations     `apply_mutation`, `restore_transaction_file`; with Writes, Applying,
--                             Restoring, Foreign
--   Transaction/Git           the Git checks; with GitReads
--   Transaction/Rollback      `rollback_manifest`; with InFlight, Undone, RolledBack
--   Transaction/Sorting       `validate_and_sort_mutations`; with Sorted
--   Transaction/Directories   `WorkspaceTransactionLock::acquire`, `create_transaction_directory`; with
--                             Outside
--   Transaction/Prepare       `prepare_transaction`; with BackedUp, Preparing
--   Transaction/Execute       `execute_apply_transaction`; with Atomic, WholeRun
--   Transaction/History       the checks of `inspect_run_directory` on the events
--   Transaction/Inspect       `inspect_run_directory`, `validate_manifest_artifacts`
--   Transaction/Recover       `inspect_apply_transaction`, `rollback_apply_transaction`,
--                             `verify_manifest_files_restored`; with Rechecked, Recovered, Recovery
--   Transaction/Listing       `list_apply_transactions`; with Listed
--   Tests                     a small world on which the theorems are applied
--
-- How the code is read. A function that may fail returns a `Result` with the source's error. The rules
-- run in `Eval`, which carries the list of the paths inspected so far, the `&mut Vec` of the source. A
-- loop over a path or a list is a structural recursion, so that no fuel is needed anywhere. The
-- directories of the approval store are functions from file names to contents, and the answer of each
-- system call of `consume_at` is an argument, so that every failure and every race for a file can be
-- chosen. Clocks and fresh identifiers are arguments. Numbers are natural numbers; where the source
-- saturates, the bound of 64 bits is written out.
--
-- Bounds of the model. The build is the one for systems other than Windows. A path is the list of its
-- components, so that spellings with the same components are one path; strings are their bytes and
-- are taken to be UTF-8. A lock file that is a link is opened where it leads. A host is one observation of the file system: nothing else writes to it while
-- a request is evaluated.
--
-- A transaction runs on a machine: the workspace as a function from paths to nodes, the run directory
-- and the journal. An operation takes a machine to a result and a machine. The world decides for every
-- system call whether it fails and what others did to the workspace before it; a crash is a world in
-- which every call fails from some point on. The files that stage a content beside its target are a list of
-- the machine, where a failed write or a failed removal leaves them; a staging file is taken to have a
-- name of its own, which is no target's. The temporary files of the run directory are not kept, and one
-- system call stands for the few that write, sync and rename one. The hundred rounds
-- for a fresh identifier are fuel that the source has too. The text of an error is kept where the code
-- reads it. What an inspection reads in the run directory is a record of the answers of the file
-- system, which any function of the machine may give. `capture_git_state`
-- (crates/opticcode-tools/src/git_state.rs), which runs git, BLAKE3 and the spelling of paths are
-- parameters.
--
-- Not modelled: listing the audit and the creation of the state directories, which are input and
-- output only; the apply log; the other files of
-- crates/opticcode-tools and the other crates (crates/opticcode-edit, crates/opticcode-core,
-- crates/opticcode-llm, crates/opticcode-cli), which call the policy before they act.
pub mod Prelude
pub mod Text
pub mod FilePath
pub mod Model
pub mod Host
pub mod Paths
pub mod Rules
pub mod Validate
pub mod Worktree
pub mod Process
pub mod Evaluate
pub mod Approval
pub mod Audit
pub mod Request
pub mod Engine
pub mod Transaction
pub mod Tests
