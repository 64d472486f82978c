-- ===== src/Evaluate/Patch.antt =====
-- `evaluate_apply_patch` of crates/opticcode-policy/src/engine.rs.
use optic_code.Evaluate.Reads.{inspect_each}
use optic_code.FilePath.{FilePath, option_path_eq, path_eq}
use optic_code.Host.{Host}
use optic_code.Model.{
  PolicyRequest, approved_apply, critical, high, max_policy_paths, mode_eq, worktree_edit,
}
use optic_code.Model.Actions.{ApplyPatchAction}
use optic_code.Paths.{Checked, file, inspect_root, new_file}
use optic_code.Prelude.{
  Option, [], all_ok, if◌then◌else◌, length, ltb, none, option_bool_eq, saturating_add, some, true,
  ◌!=◌, ◌&&◌, ◌==◌, ◌∷◌,
}
use optic_code.Rules.{
  Eval, RuleOutcome, allowed, approval_required, denied, done, outside_scope_denied, try, ◌>>=◌,
  ◌>>◌,
}
use optic_code.Text.{text_eq}
use optic_code.Validate.{
  require_working_tree_digest, validate_git_oid, validate_hash_value, validate_identifier_value,
  validate_sorted_paths,
}
use optic_code.Worktree.{validated_active_worktree}

-- the validators that stand before the path bound
unfoldable pub validate_patch : ApplyPatchAction → Checked Unit
validate_patch action = all_ok (
    validate_hash_value action.diff_hash "diff hash"
    ∷ validate_hash_value action.files_hash "file-set hash"
    ∷ validate_identifier_value action.transaction_id "transaction ID"
    ∷ validate_git_oid action.base_head "base HEAD"
    ∷ validate_sorted_paths action.paths
    ∷ validate_sorted_paths action.created_paths
    ∷ [])

-- the branch `root == workspace_root`
unfoldable pub apply_to_original : PolicyRequest → ApplyPatchAction → Eval RuleOutcome
apply_to_original request action =
    if request.mode != approved_apply
    then done (
        denied "apply.mode_required" critical
          "Applying to the original workspace requires approved_apply mode."
          "The request did not enter the narrow state-bound apply mode."
          "Verify the proposal, obtain native confirmation, then retry once." true)
    else elim request.workspace.repository [
      | none ↦ done (
          denied "apply.git_boundary_required" critical
            "Applying to the original workspace requires a complete Git boundary."
            "The runtime cannot bind approval to an observed repository HEAD without Git metadata."
            "Rebuild the verified proposal state from the repository adapter." true)
      | some repository ↦
          if repository.head != action.base_head
          then done (
              denied "apply.head_mismatch" critical
                "Repository HEAD no longer matches the verified proposal."
                "The apply action base commit differs from the currently observed Git boundary."
                "Re-verify the proposal against the current HEAD." true)
          else if request.workspace.repository_clean != some true
          then done (
              denied "apply.repository_dirty" critical
                "Applying to a dirty or unobserved repository is blocked."
                "approved_apply requires an explicit clean observation from Git State Guard."
                "Refresh Git state and resolve all pre-existing changes before approval." true)
          else do
            try (require_working_tree_digest request)
            done (
                approval_required "apply.original_requires_approval" high
                  "Applying verified changes to the original workspace requires confirmation."
                  "The approval binds request, workspace, mode, HEAD, working tree, diff, files, actions, and transaction."
                  "Review the verified diff in the IDE and confirm the native modal.")
    ]

-- behind the inspection of the paths: the original, the active worktree, or neither
unfoldable pub decide_patch :
    PolicyRequest → FilePath → ApplyPatchAction → FilePath → Option FilePath → Eval RuleOutcome
decide_patch request workspace_root action root active =
    if root == workspace_root
    then apply_to_original request action
    else if active == some root && request.mode == worktree_edit
    then done (
        allowed "apply.active_worktree" "active_opticcode_worktree"
          ("validated lease" ∷ "transactional patch" ∷ "bounded file set"
            ∷ "created paths validated by the proposal contract" ∷ "post-apply verification" ∷ [])
          "The patch may be applied transactionally inside the disposable worktree."
          "The original workspace is outside the target transaction.")
    else done outside_scope_denied

module _ (host : Host) where
  unfoldable pub evaluate_apply_patch :
      PolicyRequest → FilePath → ApplyPatchAction → Eval RuleOutcome
  evaluate_apply_patch request workspace_root action = do
    try (validate_patch action)
    if ltb max_policy_paths (saturating_add (length action.paths) (length action.created_paths))
        then done (
            denied "action.path_limit" high "The patch contains too many paths."
              "The structured patch exceeded the policy path bound."
              "Split the proposal into smaller reviewed transactions." true)
        else do
          root ← try (inspect_root host action.root)
          active ← try (validated_active_worktree host request workspace_root)
          inspect_each host file root action.paths
          inspect_each host new_file root action.created_paths
          decide_patch request workspace_root action root active
