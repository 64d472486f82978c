-- ===== src/Evaluate/Writes.antt =====
-- The actions of `evaluate_action` in crates/opticcode-policy/src/engine.rs that write files or move
-- worktrees: `evaluate_write`, the deletion, the creation of a worktree and `evaluate_cleanup`.
use optic_code.FilePath.{FilePath, option_path_eq, path_eq}
use optic_code.Host.{Host}
use optic_code.Model.{PolicyRequest, critical, high, mode_eq, read_only, worktree_edit}
use optic_code.Model.Actions.{CleanupWorktreeAction, CreateWorktreeAction, DeleteAction, PathTarget}
use optic_code.Paths.{PathExpectation, file, inspect_path, inspect_root}
use optic_code.Prelude.{
  Bool, [], false, if◌then◌else◌, none, not, option_bool_eq, some, true, ◌!=◌, ◌&&◌, ◌==◌, ◌∷◌,
}
use optic_code.Rules.{
  Eval, RuleOutcome, allowed, approval_required, denied, done, outside_scope_denied, push,
  read_only_write_denied, try, ◌>>=◌, ◌>>◌,
}
use optic_code.Text.{text_eq}
use optic_code.Validate.{require_working_tree_digest, validate_git_oid, validate_worktree_run_id}
use optic_code.Worktree.{
  require_workspace_or_active_root, validate_worktree_destination, validated_active_worktree,
}

-- the checks on the observed repository, behind the mode
unfoldable pub worktree_source : PolicyRequest → CreateWorktreeAction → Eval RuleOutcome
worktree_source request action = elim request.workspace.repository [
  | none ↦ done (
      denied "worktree.git_boundary_required" high
        "Creating a worktree requires an observed Git boundary."
        "The source HEAD and repository layout were not supplied by the trusted Git adapter."
        "Refresh repository state before creating the disposable worktree." true)
  | some boundary ↦
      if boundary.head != action.base_head
      then done (
          denied "worktree.head_mismatch" high "The source HEAD changed before worktree creation."
            "The requested base commit differs from the observed repository boundary."
            "Refresh and recreate the proposal from the current HEAD." true)
      else if request.workspace.repository_clean != some true
      then done (
          denied "worktree.source_dirty" high
            "The source repository must be clean before worktree creation."
            "A missing or false cleanliness observation fails closed."
            "Commit, stash, or otherwise resolve source changes, then refresh Git state." true)
      else do
        try (require_working_tree_digest request)
        done (
            allowed "worktree.create_disposable" "opticcode_temp_worktree"
              ("detached HEAD" ∷ "controlled temporary root" ∷ "exact base commit"
                ∷ "recoverable lease" ∷ [])
              "A disposable OpticCode worktree may be created."
              "The destination is a direct child of controlled temporary storage.")
]

-- the worktree of the request is the one to clean up
abbrev names_active : PolicyRequest → CleanupWorktreeAction → Bool
names_active request action = elim request.workspace.active_worktree [
  | none ↦ false
  | some worktree ↦ worktree.run_id == action.run_id
]

module _ (host : Host) where
  unfoldable pub evaluate_write :
      PolicyRequest → FilePath → PathTarget → PathExpectation → Bool → Eval RuleOutcome
  evaluate_write request workspace_root target expectation creation = do
    report ← try (inspect_path host target expectation)
    active ← try (validated_active_worktree host request workspace_root)
    if request.mode == read_only
        then done read_only_write_denied
        else if active != some report.root
        then done (
            denied "write.original_requires_apply" critical
              "Direct writes to the original workspace are blocked."
              "Original changes must use a verified ApplyPatch action and one-shot approval."
              "Create and verify a proposal in an active OpticCode worktree first." false)
        else do
          push report
          if creation
              then done (
                  allowed "write.active_worktree_create" "active_opticcode_worktree"
                    ("validated lease" ∷ "controlled temporary root"
                      ∷ "new path validated by the proposal contract" ∷ "transactional write" ∷ [])
                    "The new file may be created inside the active disposable worktree."
                    "The original workspace remains untouched until a separate approved apply.")
              else done (
                  allowed "write.active_worktree" "active_opticcode_worktree"
                    ("validated lease" ∷ "controlled temporary root" ∷ "expected file hash"
                      ∷ "transactional write" ∷ [])
                    "The existing file may be changed inside the active disposable worktree."
                    "The original workspace is outside the target root and remains untouched.")

  unfoldable pub evaluate_delete : PolicyRequest → FilePath → DeleteAction → Eval RuleOutcome
  evaluate_delete request workspace_root action =
      if action.recursive
      then done (
          denied "delete.recursive_denied" critical "Recursive deletion is not available."
            "The action requested a recursive filesystem delete."
            "Review and delete individual files manually if still necessary." false)
      else do
        report ← try (inspect_path host action.target file)
        try (require_workspace_or_active_root host request workspace_root report.root)
        if request.mode == read_only
            then done read_only_write_denied
            else if report.root == workspace_root
            then done (
                denied "delete.original_requires_apply" critical
                  "Direct deletion from the original workspace is blocked."
                  "Original deletions must be represented by a verified transactional patch."
                  "Create and verify the deletion in a disposable worktree first." false)
            else do
              push report
              done (
                  approval_required "delete.worktree_file_requires_approval" high
                    "Deleting a proposal file requires explicit confirmation."
                    "The deletion is confined to the disposable worktree but remains destructive."
                    "Review the exact worktree file and approve the one-shot action.")

  unfoldable pub evaluate_create_worktree :
      PolicyRequest → FilePath → CreateWorktreeAction → Eval RuleOutcome
  evaluate_create_worktree request workspace_root action = do
    repository ← try (inspect_root host action.repository_root)
    if repository != workspace_root then done outside_scope_denied else do
      try (validate_git_oid action.base_head "worktree base HEAD")
      try (validate_worktree_destination host action.destination action.run_id)
      if not action.detached
          then done (
              denied "worktree.detached_required" high "OpticCode worktrees must use detached HEAD."
                "Creating or moving a user branch is outside the disposable-worktree scope."
                "Create the worktree at the exact base commit with detached HEAD." false)
          else if request.mode != worktree_edit
          then done read_only_write_denied
          else worktree_source request action

  unfoldable pub evaluate_cleanup :
      PolicyRequest → FilePath → CleanupWorktreeAction → Eval RuleOutcome
  evaluate_cleanup request workspace_root action = do
    try (validate_worktree_run_id action.run_id)
    if request.mode == read_only then done read_only_write_denied else do
      repository ← try (inspect_root host action.repository_root)
      if repository != workspace_root then done outside_scope_denied else do
        active ← try (validated_active_worktree host request workspace_root)
        root ← try (inspect_root host action.worktree_root)
        if active == some root && request.mode == worktree_edit && names_active request action
            then done (
                allowed "worktree.cleanup_active" "active_opticcode_worktree"
                  ("validated lease" ∷ "targeted removal" ∷ "registration recheck" ∷ [])
                  "The active disposable worktree may be cleaned up."
                  "Cleanup is restricted to the exact leased worktree and never uses global prune.")
            else done (
                approval_required "worktree.recovery_requires_approval" high
                  "Recovering an abandoned worktree requires confirmation."
                  "The target is not the current active worktree for this request."
                  "Inspect the lease and approve targeted recovery.")
