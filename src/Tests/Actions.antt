-- ===== src/Tests/Actions.antt =====
-- Inspections, rules and a whole check on the small world.
use optic_code.FilePath
use optic_code.Text
use optic_code.Evaluate.{
  evaluate_action, evaluate_git_commit, evaluate_git_write, evaluate_recovery, evaluate_rollback,
}
use optic_code.Evaluate.Apply.{IsApplyBound, apply_patch-original}
use optic_code.Evaluate.Patch.{
  apply_to_original, decide_patch, evaluate_apply_patch, validate_patch,
}
use optic_code.Evaluate.ReadOnly.{IsDeny, evaluate_action-read_only}
use optic_code.Evaluate.Writes.{
  evaluate_cleanup, evaluate_create_worktree, evaluate_delete, evaluate_write, worktree_source,
}
use optic_code.FilePath.{
  Component-discrete, FilePath, FilePath-discrete, OptionPath-discrete, file_name, join, normal,
  parent, to_text,
}
use optic_code.Host.{metadata_attributes, metadata_is_link_or_reparse}
use optic_code.Model.{
  ActionOrigin-discrete, Allowed, NeedsApproval, PolicyMode-discrete, PolicyRequest, allow,
  allowed_report, approved_apply, decision_kind, decision_risk, decision_rule_id, high, read_only,
  require_approval, worktree_edit,
}
use optic_code.Model.Actions.{
  ApplyPatchAction, GitReadOperation-discrete, GitWriteOperation-discrete, NetworkIntent,
  NetworkIntent-discrete, PathTarget, ProcessLaunch-discrete, RunProcessAction, apply_patch, direct,
  kind, run_process, write_file,
}
use optic_code.Paths.{
  PathExpectation-discrete, PathSafetyError, PathSafetyReport, PathSafetyReport-discrete,
  Reports-discrete, check_expectation, content_hash_of, file, inspect_components, inspect_from,
  inspect_last, inspect_path, inspect_root, path_error, reject_nested_from,
  reject_nested_repository, reject_sensitive_path, relative_target, resolve_target, revalidate,
}
use optic_code.Paths.Safety.{IsSafe, hashed, inspect_path-IsSafe, inspect_path-expected_hash}
use optic_code.Paths.Sensitive.{has_secret_stem, is_sensitive_name, stem_of}
use optic_code.Paths.Stability.{IsFileSystem, revalidate-inspect_path}
use optic_code.Prelude.{
  OptionBool-discrete, Result, Result-cases, [], arith, false, inl, inr, ok, refl, some, true,
  ℕ_discrete, ◌++◌, ◌∷◌, ◌≡◌, ◌≢◌,
}
use optic_code.Process.{
  argument_limits, evaluate_build, evaluate_executable, evaluate_in_worktree, evaluate_installed,
  evaluate_process, evaluate_wrapper, executable_name, inspect_cwd, inspect_installed_executable,
  inspect_under, launch_installed, launch_wrapper, process_limits,
}
use optic_code.Process.Arguments.{
  BuildTool-discrete, allowed_build_goals, allowed_goal, classify, dangerous_argument,
  dangerous_build_option, environment_name_denied, goals_of, is_offline, is_shell_executable, maven,
  package_install_goal, unsafe_argument, validate_environment_allowlist,
}
use optic_code.Rules.{
  RuleOutcome, allowed, approval_required, denied, denied_by, done, is_deny, outside_scope_denied,
  push, read_only_write_denied, try,
}
use optic_code.Tests.World.{
  digest, entry, host, observed_workspace, repository, request, source, workspace, worktree,
  wrapper_target,
}
use optic_code.Text.{
  OptionText-discrete, Text, Text-discrete, bytes, contains_text, ends_with, forward_slashes,
  lower_byte, rsplit_head, split_on, split_whitespace, split_words, starts_with, text_lt,
  to_ascii_lowercase, trim, trim_end, trim_from, trim_start, white_bytes,
}
use optic_code.Validate.{
  bounded, floor_boundary, invalid_path_request, is_char_boundary, normalized_paths, out_of_order,
  require_working_tree_digest, validate_git_oid, validate_hash_value, validate_identifier_value,
  validate_request_identifier, validate_sorted_paths, validate_worktree_run_id,
}
use optic_code.Worktree.{
  active_root, commondir_checked, controlled_worktree_storage, gitdir_of, require_read_scope,
  require_workspace_or_active_root, source_unchanged, validate_active_descriptor, validate_git_file,
  validate_transaction_action, validate_worktree_destination, validate_worktree_lease,
  validated_active_worktree,
}

abbrev inspected : PathTarget → PathSafetyReport
inspected t = record {
  root = t.root;
  target = t.root ++ t.path;
  relative_path = t.path;
  exists = true;
  fingerprint = record {
    metadata_hash = digest;
    content_hash = some digest;
    byte_count = 3;
    modified_unix_nanos = 7;
  };
}

abbrev patch : ApplyPatchAction
patch = record {
  root = source;
  paths = [];
  created_paths = [];
  diff_hash = digest;
  files_hash = digest;
  transaction_id = bytes "tx";
  base_head = digest;
}

abbrev build : RunProcessAction
build = record {
  executable = normal (bytes "mvnw") ∷ [];
  arguments = bytes "-o" ∷ bytes "test" ∷ [];
  cwd = worktree;
  timeout_ms = 1000;
  output_limit_bytes = 1000;
  network = NetworkIntent.denied;
  launch = direct;
  environment_allowlist = bytes "CI" ∷ [];
}

abbrev applying : PolicyRequest
applying =
    request approved_apply (record workspace { repository = some repository }) (apply_patch patch)

abbrev patch_outcome : Result PathSafetyError RuleOutcome
patch_outcome = (evaluate_action host applying source (apply_patch patch) []).0

abbrev asked : RuleOutcome
asked =
    approval_required "apply.original_requires_approval" high
      "Applying verified changes to the original workspace requires confirmation."
      "The approval binds request, workspace, mode, HEAD, working tree, diff, files, actions, and transaction."
      "Review the verified diff in the IDE and confirm the native modal."

abbrev building : PolicyRequest
building = request worktree_edit observed_workspace (run_process build)

-- Every run of this file, by computation.
runs :
    (inspect_path host wrapper_target file ≡ ok (inspected wrapper_target))
    × ((evaluate_action host
          (request read_only workspace (write_file wrapper_target))
          source
          (write_file wrapper_target)
          []).0
        ≡ ok read_only_write_denied)
    × (patch_outcome ≡ ok asked)
    × (inspect_root host source ≡ ok source)
    × ((evaluate_process host building source build []).0 ≡ ok (evaluate_build build maven))
    × (is_deny (evaluate_build build maven).decision ≡ false)
unfolding ℕ_discrete OptionBool-discrete bytes Text-discrete OptionText-discrete lower_byte
    to_ascii_lowercase starts_with ends_with contains_text text_lt forward_slashes split_on
    white_bytes split_words trim_from split_whitespace trim_start trim_end trim Text.strip_prefix
    rsplit_head Component-discrete FilePath-discrete OptionPath-discrete join FilePath.starts_with
    FilePath.strip_prefix file_name parent to_text metadata_is_link_or_reparse metadata_attributes
    PolicyMode-discrete ActionOrigin-discrete decision_kind decision_rule_id decision_risk
    allowed_report NetworkIntent-discrete ProcessLaunch-discrete GitReadOperation-discrete
    GitWriteOperation-discrete kind PathExpectation-discrete PathSafetyReport-discrete
    Reports-discrete path_error relative_target reject_sensitive_path inspect_last check_expectation
    reject_nested_from reject_nested_repository inspect_from inspect_components content_hash_of
    optic_code.Paths.fingerprint resolve_target inspect_path inspect_root revalidate stem_of
    has_secret_stem is_sensitive_name allowed approval_required denied_by denied
    read_only_write_denied outside_scope_denied done try push optic_code.Rules.◌>>=◌
    validate_hash_value validate_git_oid require_working_tree_digest validate_identifier_value
    validate_worktree_run_id validate_request_identifier normalized_paths out_of_order
    validate_sorted_paths is_char_boundary floor_boundary bounded invalid_path_request
    controlled_worktree_storage validate_worktree_lease gitdir_of commondir_checked
    validate_git_file active_root validate_active_descriptor source_unchanged
    validated_active_worktree require_read_scope require_workspace_or_active_root
    validate_worktree_destination validate_transaction_action argument_limits process_limits
    evaluate_build executable_name launch_installed inspect_under inspect_installed_executable
    launch_wrapper evaluate_wrapper evaluate_installed evaluate_executable inspect_cwd
    evaluate_in_worktree evaluate_process BuildTool-discrete unsafe_argument environment_name_denied
    validate_environment_allowlist is_shell_executable package_install_goal dangerous_argument
    dangerous_build_option allowed_goal goals_of allowed_build_goals is_offline classify
    evaluate_git_write evaluate_git_commit evaluate_recovery evaluate_rollback evaluate_action
    worktree_source evaluate_write evaluate_delete evaluate_create_worktree evaluate_cleanup
    validate_patch apply_to_original decide_patch evaluate_apply_patch
    optic_code.Evaluate.Reads.inspect_each
runs = (refl, refl, refl, refl, refl, refl)

wrapper_inspected : inspect_path host wrapper_target file ≡ ok (inspected wrapper_target)
wrapper_inspected = runs.0

inspect_path-IsSafe_example : IsSafe host wrapper_target (inspected wrapper_target)
inspect_path-IsSafe_example = inspect_path-IsSafe host wrapper_target file wrapper_inspected

inspect_path-expected_hash_example :
    (some digest ≡ some digest) × (hashed host (inspected wrapper_target).target ≡ some digest)
inspect_path-expected_hash_example =
    inspect_path-expected_hash host wrapper_target digest refl wrapper_inspected

host-IsFileSystem : IsFileSystem host
host-IsFileSystem = record {
  canonical_idem = λ p q h. elim (Result-cases (entry p)) [
    | inl (m, e) ↦ ground arith
    | inr (x, e) ↦ absurd (ground arith)
  ];
  same_entry = λ p q m h g plain. ground arith;
}

revalidate-inspect_path_example :
    revalidate host (inspected wrapper_target) ≡ ok (inspected wrapper_target)
revalidate-inspect_path_example =
    revalidate-inspect_path host wrapper_target file host-IsFileSystem wrapper_inspected

write_denied :
    (evaluate_action host
      (request read_only workspace (write_file wrapper_target))
      source
      (write_file wrapper_target)
      []).0
    ≡ ok read_only_write_denied
write_denied = runs.1

evaluate_action-read_only_example : IsDeny read_only_write_denied.decision
evaluate_action-read_only_example =
    evaluate_action-read_only host (request read_only workspace (write_file wrapper_target)) source
      refl (write_file wrapper_target) [] refl write_denied

patch_asks : patch_outcome ≡ ok asked
patch_asks = runs.2

source_inspected : inspect_root host source ≡ ok source
source_inspected = runs.3

apply_patch-original_example :
    ((x : Allowed) → asked.decision ≢ allow x)
    × ((n : NeedsApproval) → asked.decision ≡ require_approval n → IsApplyBound applying patch)
apply_patch-original_example =
    apply_patch-original host applying source patch [] source_inspected patch_asks
