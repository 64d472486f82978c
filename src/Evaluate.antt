-- ===== src/Evaluate.antt =====
-- `evaluate_action` of crates/opticcode-policy/src/engine.rs: one rule for each action.
pub mod Reads
pub mod PatchSteps
pub mod Apply
pub mod ReadOnly
pub mod Writes
pub mod Patch
use optic_code.Evaluate.Patch.{evaluate_apply_patch}
use optic_code.Evaluate.Reads.{
  evaluate_context, evaluate_git_read, evaluate_rag, evaluate_read_directory, evaluate_read_file,
  evaluate_search,
}
use optic_code.Evaluate.Writes.{
  evaluate_cleanup, evaluate_create_worktree, evaluate_delete, evaluate_write,
}
use optic_code.FilePath.{FilePath}
use optic_code.Host.{Host}
use optic_code.Model.{PolicyRequest, critical, high, mode_eq, read_only}
use optic_code.Model.Actions.{
  GitCommitAction, GitWriteAction, GitWriteOperation, PolicyAction, TransactionAction, apply_patch,
  build_context, cleanup_worktree, create_file, create_worktree, delete_file, elevate_privileges,
  git_commit, git_push, git_read, git_write, git_write_eq, modify_policy, network_access,
  package_install, publish, read_directory, read_file, recover_transaction, rollback_transaction,
  run_process, search_files, unknown_action, use_rag, write_file,
}
use optic_code.Paths.{file, inspect_root, new_file}
use optic_code.Prelude.{false, if◌then◌else◌, true, ◌==◌}
use optic_code.Process.{evaluate_process}
use optic_code.Rules.{
  Eval, RuleOutcome, approval_required, denied, done, read_only_write_denied, try, ◌>>=◌, ◌>>◌,
}
use optic_code.Validate.{validate_hash_value}
use optic_code.Worktree.{require_workspace_or_active_root, validate_transaction_action}

unfoldable pub evaluate_git_write : GitWriteAction → RuleOutcome
evaluate_git_write action =
    if action.operation == GitWriteOperation.unknown
    then denied "git.write_operation_unknown" critical "Unknown Git writes are blocked."
        "The requested Git mutation is not represented by a safe dedicated action."
        "Use a dedicated worktree or transaction operation." false
    else denied "git.generic_write_denied" high "Generic Git writes are not available."
        "Worktree and apply mutations must use their dedicated structured actions."
        "Use CreateWorktree, CleanupWorktree, ApplyPatch, or GitCommit." false

module _ (host : Host) where
  unfoldable pub evaluate_git_commit : PolicyRequest → FilePath → GitCommitAction → Eval RuleOutcome
  evaluate_git_commit request workspace_root action = do
    try (validate_hash_value action.tree_hash "Git tree hash")
    try (validate_hash_value action.message_hash "commit message hash")
    repository ← try (inspect_root host action.repository_root)
    try (require_workspace_or_active_root host request workspace_root repository)
    if request.mode == read_only
        then done read_only_write_denied
        else done (
            approval_required "git.local_commit_requires_approval" high
              "Creating a local commit requires explicit confirmation."
              "A commit changes repository refs even without network access."
              "Review the staged tree and approve the exact one-shot commit.")

  unfoldable pub evaluate_recovery : PolicyRequest → FilePath → TransactionAction → Eval RuleOutcome
  evaluate_recovery request workspace_root action = do
    try (validate_transaction_action host action workspace_root)
    if request.mode == read_only
        then done read_only_write_denied
        else done (
            approval_required "transaction.recovery_requires_approval" high
              "Targeted recovery requires explicit confirmation."
              "Recovery may mutate files or remove abandoned controlled resources."
              "Inspect the transaction, then approve this exact one-shot recovery.")

  unfoldable pub evaluate_rollback : PolicyRequest → FilePath → TransactionAction → Eval RuleOutcome
  evaluate_rollback request workspace_root action = do
    try (validate_transaction_action host action workspace_root)
    if request.mode == read_only
        then done read_only_write_denied
        else done (
            approval_required "transaction.rollback_requires_approval" high
              "Rolling back an applied transaction requires explicit confirmation."
              "Rollback rewrites the exact files recorded by a previous transaction."
              "Inspect transaction state and approve this exact one-shot rollback.")

  unfoldable pub evaluate_action : PolicyRequest → FilePath → PolicyAction → Eval RuleOutcome
  unfolding evaluate_git_write
  evaluate_action request workspace_root unknown_action = done (
      denied "action.unknown" critical "Unknown actions are never authorized."
        "The closed policy action enum did not recognize this action."
        "Upgrade the client or use a supported structured action." false)
  evaluate_action request workspace_root modify_policy = done (
      denied "policy.modification_denied" critical
        "The model cannot modify its authorization policy."
        "Policy changes are outside all runtime action scopes."
        "Change policy source manually and review it as code." false)
  evaluate_action request workspace_root elevate_privileges = done (
      denied "process.elevation_denied" critical "Privilege elevation is not available."
        "Elevated execution is excluded from OpticCode runtime capabilities."
        "Run any administrative maintenance manually outside OpticCode." false)
  evaluate_action request workspace_root (read_file target) =
      evaluate_read_file host request workspace_root target
  evaluate_action request workspace_root (read_directory target) =
      evaluate_read_directory host request workspace_root target
  evaluate_action request workspace_root (search_files action) =
      evaluate_search host request workspace_root action
  evaluate_action request workspace_root (build_context action) =
      evaluate_context host request workspace_root action
  evaluate_action request workspace_root (use_rag action) = evaluate_rag host workspace_root action
  evaluate_action request workspace_root (write_file target) =
      evaluate_write host request workspace_root target file false
  evaluate_action request workspace_root (create_file target) =
      evaluate_write host request workspace_root target new_file true
  evaluate_action request workspace_root (delete_file action) =
      evaluate_delete host request workspace_root action
  evaluate_action request workspace_root (apply_patch action) =
      evaluate_apply_patch host request workspace_root action
  evaluate_action request workspace_root (run_process action) =
      evaluate_process host request workspace_root action
  evaluate_action request workspace_root (create_worktree action) =
      evaluate_create_worktree host request workspace_root action
  evaluate_action request workspace_root (cleanup_worktree action) =
      evaluate_cleanup host request workspace_root action
  evaluate_action request workspace_root (git_read action) =
      evaluate_git_read host request workspace_root action
  evaluate_action request workspace_root (git_write action) = done (evaluate_git_write action)
  evaluate_action request workspace_root (git_commit action) =
      evaluate_git_commit request workspace_root action
  evaluate_action request workspace_root (git_push _) = done (
      denied "git.push_denied" critical "Git push is never performed by this policy version."
        "Remote ref mutation is outside OpticCode local-agent capabilities."
        "Push manually after reviewing local changes and commits." false)
  evaluate_action request workspace_root (network_access _ _) = done (
      denied "network.standalone_denied" critical "Standalone network access is unavailable."
        "Network access must be tied to an explicitly approved bounded operation."
        "Use local data, or approve a supported Maven/Gradle verification action." false)
  evaluate_action request workspace_root (package_install _ _) = done (
      denied "package.install_denied" critical "Automatic package installation is disabled."
        "Package installation changes the machine outside the project transaction boundary."
        "Install reviewed dependencies manually." false)
  evaluate_action request workspace_root (publish _ _) = done (
      denied "publish.denied" critical "Publishing and releases are disabled."
        "The action would expose or distribute an artifact outside the local workspace."
        "Publish manually after reviewing the verified artifact." false)
  evaluate_action request workspace_root (recover_transaction action) =
      evaluate_recovery request workspace_root action
  evaluate_action request workspace_root (rollback_transaction action) =
      evaluate_rollback request workspace_root action
