-- ===== src/Evaluate/ReadOnly.antt =====
-- The modes of crates/opticcode-policy/src/engine.rs: which decisions an action can meet in which mode.
use optic_code.Evaluate.{
  evaluate_action, evaluate_git_commit, evaluate_git_write, evaluate_recovery, evaluate_rollback,
}
use optic_code.Evaluate.Patch.{apply_to_original, decide_patch, evaluate_apply_patch}
use optic_code.Evaluate.PatchSteps.{apply_patch-decided}
use optic_code.Evaluate.Writes.{
  evaluate_cleanup, evaluate_create_worktree, evaluate_delete, evaluate_write,
}
use optic_code.FilePath.{FilePath}
use optic_code.Host.{Host}
use optic_code.Model.{PolicyDecision, PolicyRequest, deny, read_only}
use optic_code.Model.Actions.{
  ApplyPatchAction, CleanupWorktreeAction, CreateWorktreeAction, DeleteAction, GitCommitAction,
  GitWriteAction, PathTarget, PolicyAction, RunProcessAction, TransactionAction, apply_patch,
  build_context, cleanup_worktree, create_file, create_worktree, delete_file, git_commit, git_read,
  read_directory, read_file, recover_transaction, rollback_transaction, run_process, search_files,
  use_rag, write_file,
}
use optic_code.Paths.{PathExpectation, file, new_file}
use optic_code.Prelude.{Bool, Option, arith, false, inl, inr, ok, true, ◌≡◌, ◌⊎◌}
use optic_code.Process.{evaluate_process}
use optic_code.Rules.{
  Inspected, RuleOutcome, denied, outside_scope_denied, read_only_write_denied, ◌>>=◌,
}

-- The actions that are not in the read family of the policy.
abbrev pub is_mutation : PolicyAction → Bool
is_mutation (read_file _) = false
is_mutation (read_directory _) = false
is_mutation (search_files _) = false
is_mutation (build_context _) = false
is_mutation (use_rag _) = false
is_mutation (git_read _) = false
is_mutation _ = true

abbrev pub IsDeny : PolicyDecision → Type 0
IsDeny (deny _) = Unit
IsDeny _ = ⊥

module _ (host : Host) (request : PolicyRequest) (root : FilePath)
    (locked : request.mode ≡ read_only) where
  write-read_only :
      (t : PathTarget) (e : PathExpectation) (creation : Bool) (paths : Inspected) {o : RuleOutcome}
      → (evaluate_write host request root t e creation paths).0 ≡ ok o
      → IsDeny o.decision
  unfolding evaluate_write read_only_write_denied ◌>>=◌
  write-read_only t e creation paths h = ground arith

  delete-read_only :
      (a : DeleteAction) (paths : Inspected) {o : RuleOutcome}
      → (evaluate_delete host request root a paths).0 ≡ ok o
      → IsDeny o.decision
  unfolding evaluate_delete denied read_only_write_denied ◌>>=◌
  delete-read_only a paths h = ground arith

  apply_to_original-read_only :
      (a : ApplyPatchAction) (paths : Inspected) {o : RuleOutcome}
      → (apply_to_original request a paths).0 ≡ ok o
      → IsDeny o.decision
  unfolding apply_to_original denied ◌>>=◌
  apply_to_original-read_only a paths h = ground arith

  decide_patch-read_only :
      (a : ApplyPatchAction) (r : FilePath) (active : Option FilePath) (paths : Inspected)
      {o : RuleOutcome}
      → (decide_patch request root a r active paths).0 ≡ ok o
      → IsDeny o.decision
  unfolding decide_patch outside_scope_denied ◌>>=◌
  decide_patch-read_only a r active paths {o} h =
      ground (arith, apply_to_original-read_only a paths {o = o})

  apply_patch-read_only :
      (a : ApplyPatchAction) (paths : Inspected) {o : RuleOutcome}
      → (evaluate_apply_patch host request root a paths).0 ≡ ok o
      → IsDeny o.decision
  apply_patch-read_only a paths h = elim (apply_patch-decided host request root a paths h) [
    | inl e ↦ rw e tt
    | inr (r, active, late, _, _, g) ↦ decide_patch-read_only a r active late g
  ]

  process-read_only :
      (a : RunProcessAction) (paths : Inspected) {o : RuleOutcome}
      → (evaluate_process host request root a paths).0 ≡ ok o
      → IsDeny o.decision
  unfolding evaluate_process read_only_write_denied ◌>>=◌
  process-read_only a paths h = ground arith

  create_worktree-read_only :
      (a : CreateWorktreeAction) (paths : Inspected) {o : RuleOutcome}
      → (evaluate_create_worktree host request root a paths).0 ≡ ok o
      → IsDeny o.decision
  unfolding evaluate_create_worktree denied outside_scope_denied read_only_write_denied ◌>>=◌
  create_worktree-read_only a paths h = ground arith

  cleanup-read_only :
      (a : CleanupWorktreeAction) (paths : Inspected) {o : RuleOutcome}
      → (evaluate_cleanup host request root a paths).0 ≡ ok o
      → IsDeny o.decision
  unfolding evaluate_cleanup read_only_write_denied ◌>>=◌
  cleanup-read_only a paths h = ground arith

  git_write-read_only : (a : GitWriteAction) → IsDeny (evaluate_git_write a).decision
  unfolding evaluate_git_write denied
  git_write-read_only a = ground arith

  git_commit-read_only :
      (a : GitCommitAction) (paths : Inspected) {o : RuleOutcome}
      → (evaluate_git_commit host request root a paths).0 ≡ ok o
      → IsDeny o.decision
  unfolding evaluate_git_commit read_only_write_denied ◌>>=◌
  git_commit-read_only a paths h = ground arith

  transaction-read_only :
      (a : TransactionAction) (paths : Inspected) {o : RuleOutcome}
      → ((evaluate_recovery host request root a paths).0 ≡ ok o)
        ⊎ ((evaluate_rollback host request root a paths).0 ≡ ok o)
      → IsDeny o.decision
  unfolding evaluate_recovery evaluate_rollback read_only_write_denied ◌>>=◌
  transaction-read_only a paths h = ground arith

  -- In `read_only` mode every action outside the read family ends in a denial or in a refused path,
  -- never in a permission and never in a request for approval.
  pub evaluate_action-read_only :
      (a : PolicyAction) (paths : Inspected) {o : RuleOutcome}
      → is_mutation a ≡ true
      → (evaluate_action host request root a paths).0 ≡ ok o
      → IsDeny o.decision
  unfolding evaluate_action denied ◌>>=◌
  evaluate_action-read_only (write_file t) paths m h = write-read_only t file false paths h
  evaluate_action-read_only (create_file t) paths m h = write-read_only t new_file true paths h
  evaluate_action-read_only (delete_file a) paths m h = delete-read_only a paths h
  evaluate_action-read_only (apply_patch a) paths m h = apply_patch-read_only a paths h
  evaluate_action-read_only (run_process a) paths m h = process-read_only a paths h
  evaluate_action-read_only (create_worktree a) paths m h = create_worktree-read_only a paths h
  evaluate_action-read_only (cleanup_worktree a) paths m h = cleanup-read_only a paths h
  evaluate_action-read_only (git_commit a) paths m h = git_commit-read_only a paths h
  evaluate_action-read_only (recover_transaction a) paths m h =
      transaction-read_only a paths (inl h)
  evaluate_action-read_only (rollback_transaction a) paths m h =
      transaction-read_only a paths (inr h)
  evaluate_action-read_only _ paths m h = ground arith
