-- ===== src/Tests/Checks.antt =====
-- Whole checks, an explanation, an issue and a bounded reason, on the small world.
use text.Mathlib.Text.{◌==◌ as str_eq}
use optic_code.FilePath
use optic_code.Text
use optic_code.Approval.{
  ApprovalGrant, Codec, NativeConfirmation, available, check_record, claim_record, consume_at,
  explicit_confirmation, hash_json, issue_at, issue_checked, new_record, read_record, settle,
  take_record, validate_storage_id, write_file_at,
}
use optic_code.Approval.Binding.{
  ApprovalBinding, ApprovalFileBinding-discrete, FileBindings-discrete, Texts-discrete,
  compare_binding, error_text, has_repeat, normalized, validate_binding,
  validate_bounded_identifier, validate_hash,
}
use optic_code.Approval.RoundTrip.{quiet_calls}
use optic_code.Audit.{
  checked_size, insert_file, looked_at, record_event, rotate_from, rotate_to_limits, sort_files,
  validate_digest, validate_event,
}
use optic_code.Engine.{
  audit_event, authorize, check, check_evaluated, conclude, ensure_state_outside_workspace,
  evaluate, explain, issue_approval, revalidate_each, revalidate_observed, revalidate_preflight,
  security_context_hash, spend_approval,
}
use optic_code.Engine.Authorized.{IsLetRun, check-authorized}
use optic_code.Engine.Binding.{
  action_hash, approval_binding, file_bindings, hash_file_bindings, normalized_absolute, subject_of,
}
use optic_code.Engine.Forbidden.{check-forbidden}
use optic_code.Engine.Issued.{issue_approval-needed}
use optic_code.Engine.Report.{
  CheckCalls, Evaluation, PolicyEngine, PolicyPreflight, apply_approval_failure, failure_rule,
  granted_report, needs_approval, outcome_of,
}
use optic_code.Engine.Revalidated.{revalidate_observed-unchanged}
use optic_code.Evaluate.{
  evaluate_action, evaluate_git_commit, evaluate_git_write, evaluate_recovery, evaluate_rollback,
}
use optic_code.Evaluate.Patch.{
  apply_to_original, decide_patch, evaluate_apply_patch, validate_patch,
}
use optic_code.Evaluate.Reads.{
  evaluate_context, evaluate_git_read, evaluate_rag, evaluate_read_directory, evaluate_read_file,
  evaluate_search, inspect_each, inspect_path_list,
}
use optic_code.Evaluate.Writes.{
  evaluate_cleanup, evaluate_create_worktree, evaluate_delete, evaluate_write, worktree_source,
}
use optic_code.FilePath.{
  Component-discrete, FilePath, FilePath-discrete, OptionPath-discrete, file_name, join, parent,
  to_text,
}
use optic_code.Host.{metadata_attributes, metadata_is_link_or_reparse}
use optic_code.Model.{
  ActionOrigin-discrete, PolicyMode-discrete, PolicyReport, PolicyRequest, allowed_report,
  approved_apply, decision_kind, decision_risk, decision_rule_id, read_only, worktree_edit,
}
use optic_code.Model.Actions.{
  GitReadOperation-discrete, GitWriteOperation-discrete, NetworkIntent-discrete,
  ProcessLaunch-discrete, git_commit, kind, modify_policy, read_file,
}
use optic_code.Paths.{
  PathExpectation-discrete, PathSafetyReport-discrete, Reports-discrete, check_expectation,
  content_hash_of, inspect_components, inspect_from, inspect_last, inspect_path, inspect_root,
  path_error, reject_nested_from, reject_nested_repository, reject_sensitive_path, relative_target,
  resolve_target, revalidate,
}
use optic_code.Paths.Sensitive.{has_secret_stem, is_sensitive_name, stem_of}
use optic_code.Prelude.{
  All, Option, OptionBool-discrete, Result, [], arith, err, false, length, none, ok, refl, some,
  take, true, ℕ, ℕ_discrete, ◌*◌, ◌++◌, ◌+◌, ◌<◌, ◌≡◌, ◌≤◌,
}
use optic_code.Process.{
  argument_limits, evaluate_build, evaluate_executable, evaluate_in_worktree, evaluate_installed,
  evaluate_process, evaluate_wrapper, executable_name, inspect_cwd, inspect_installed_executable,
  inspect_under, launch_installed, launch_wrapper, process_limits,
}
use optic_code.Process.Arguments.{
  BuildTool-discrete, allowed_build_goals, allowed_goal, classify, dangerous_argument,
  dangerous_build_option, environment_name_denied, goals_of, is_offline, is_shell_executable,
  package_install_goal, unsafe_argument, validate_environment_allowlist,
}
use optic_code.Request.{
  boundary_checked, index_checked, malformed_approval_id, validate_repository_boundary,
  validate_request,
}
use optic_code.Rules.{
  allowed, approval_required, denied, denied_by, done, outside_scope_denied, push,
  read_only_write_denied, try,
}
use optic_code.Tests.World.{digest, host, request, source, state_dir, workspace, wrapper_target}
use optic_code.Text.{
  OptionText-discrete, Text, Text-discrete, bytes, contains_text, ends_with, forward_slashes,
  lower_byte, rsplit_head, split_on, split_whitespace, split_words, starts_with, text_lt,
  to_ascii_lowercase, trim, trim_end, trim_from, trim_start, white_bytes,
}
use optic_code.Validate.{
  PolicyError, bounded, floor_boundary, invalid_path_request, is_char_boundary, normalized_paths,
  out_of_order, require_working_tree_digest, validate_git_oid, validate_hash_value,
  validate_identifier_value, validate_request_identifier, validate_sorted_paths,
  validate_worktree_run_id,
}
use optic_code.Validate.Bounds.{IsLastBoundary, bounded-fits}
use optic_code.Worktree.{
  active_root, commondir_checked, controlled_worktree_storage, gitdir_of, require_read_scope,
  require_workspace_or_active_root, source_unchanged, validate_active_descriptor, validate_git_file,
  validate_transaction_action, validate_worktree_destination, validate_worktree_lease,
  validated_active_worktree,
}

abbrev codec : Codec
codec = record {
  hash = λ _. digest;
  binding_json = λ _. ok (bytes "binding");
  files_json = λ _. ok (bytes "files");
  record_json = λ _. ok (bytes "record");
  parse_record = λ _. err [];
}

abbrev engine : PolicyEngine
engine = record {
  state_root = state_dir;
  audit = λ _. [];
  approvals = record { active_dir = λ _. none; used_dir = λ _. none };
}

abbrev calls : CheckCalls
calls = record {
  consume = quiet_calls;
  now_ms = 2000;
  audit = record {
    fresh_id = bytes "ev-1";
    event_json = λ _. ok (bytes "event");
    created = true;
    rotation = record { listed = ok tt; looked = λ _. true; removed = λ _. ok tt };
  };
  timestamp_unix_ms = 2000;
  duration_us = 5;
}

abbrev reading : PolicyRequest
reading = request read_only workspace (read_file wrapper_target)

abbrev answer : Result PolicyError PolicyPreflight
answer = (check host codec calls engine reading).0

abbrev report_of : Result PolicyError PolicyPreflight → Option PolicyReport
report_of (ok p) = some p.report
report_of (err _) = none

abbrev tampering : PolicyRequest
tampering = record (request approved_apply workspace modify_policy) {
  approval_id = some (bytes "a1");
}

abbrev tampered : Result PolicyError PolicyPreflight
tampered = (check host codec calls engine tampering).0

abbrev explained : Result PolicyError PolicyPreflight
explained = explain host codec engine reading

abbrev committing : PolicyRequest
committing =
    request worktree_edit workspace
      (git_commit (record { repository_root = source; tree_hash = digest; message_hash = digest }))

abbrev confirmation : NativeConfirmation
confirmation = record { client = bytes "ide"; confirmation_id = bytes "c1" }

abbrev granted : Result PolicyError ApprovalGrant
granted = (issue_approval host codec engine committing confirmation 60 (bytes "a1") true 1000).0

-- The checks, the explanation and the issue, by computation: each check ends in a preflight, the refusal
-- is audited too, and the explained action is revalidated.
runs :
    ((p : PolicyPreflight) × (answer ≡ ok p) × (allowed_report p.report ≡ true))
    × ((p : PolicyPreflight) × (tampered ≡ ok p) × (p.report.audit_event_id ≡ some (bytes "ev-1")))
    × ((p : PolicyPreflight) × (explained ≡ ok p)
        × (revalidate_observed host codec p reading ≡ ok tt))
    × ((g : ApprovalGrant) × (granted ≡ ok g) × (g.expires_unix_ms ≡ 61000))
unfolding ℕ_discrete OptionBool-discrete bytes Text-discrete OptionText-discrete lower_byte
    to_ascii_lowercase starts_with ends_with contains_text text_lt forward_slashes split_on
    white_bytes split_words trim_from split_whitespace trim_start trim_end trim Text.strip_prefix
    rsplit_head Component-discrete FilePath-discrete OptionPath-discrete join FilePath.starts_with
    FilePath.strip_prefix file_name parent to_text metadata_is_link_or_reparse metadata_attributes
    PolicyMode-discrete ActionOrigin-discrete decision_kind decision_rule_id decision_risk
    allowed_report NetworkIntent-discrete ProcessLaunch-discrete GitReadOperation-discrete
    GitWriteOperation-discrete kind PathExpectation-discrete PathSafetyReport-discrete
    Reports-discrete path_error relative_target reject_sensitive_path inspect_last check_expectation
    reject_nested_from reject_nested_repository inspect_from inspect_components content_hash_of
    optic_code.Paths.fingerprint resolve_target inspect_path inspect_root revalidate stem_of
    has_secret_stem is_sensitive_name allowed approval_required denied_by denied
    read_only_write_denied outside_scope_denied done try push optic_code.Rules.◌>>=◌
    validate_hash_value validate_git_oid require_working_tree_digest validate_identifier_value
    validate_worktree_run_id validate_request_identifier normalized_paths out_of_order
    validate_sorted_paths is_char_boundary floor_boundary bounded invalid_path_request
    controlled_worktree_storage validate_worktree_lease gitdir_of commondir_checked
    validate_git_file active_root validate_active_descriptor source_unchanged
    validated_active_worktree require_read_scope require_workspace_or_active_root
    validate_worktree_destination validate_transaction_action argument_limits process_limits
    evaluate_build executable_name launch_installed inspect_under inspect_installed_executable
    launch_wrapper evaluate_wrapper evaluate_installed evaluate_executable inspect_cwd
    evaluate_in_worktree evaluate_process BuildTool-discrete unsafe_argument environment_name_denied
    validate_environment_allowlist is_shell_executable package_install_goal dangerous_argument
    dangerous_build_option allowed_goal goals_of allowed_build_goals is_offline classify
    evaluate_git_write evaluate_git_commit evaluate_recovery evaluate_rollback evaluate_action
    worktree_source evaluate_write evaluate_delete evaluate_create_worktree evaluate_cleanup
    validate_patch apply_to_original decide_patch evaluate_apply_patch explicit_confirmation
    write_file_at validate_storage_id hash_json read_record new_record issue_checked issue_at
    check_record settle take_record claim_record consume_at ApprovalFileBinding-discrete
    FileBindings-discrete Texts-discrete error_text validate_hash validate_bounded_identifier
    validate_binding has_repeat normalized compare_binding validate_digest validate_event
    insert_file sort_files rotate_from looked_at rotate_to_limits checked_size record_event
    malformed_approval_id index_checked boundary_checked validate_repository_boundary
    validate_request outcome_of failure_rule apply_approval_failure granted_report
    security_context_hash evaluate ensure_state_outside_workspace explain spend_approval authorize
    audit_event conclude check_evaluated check issue_approval revalidate_each revalidate_observed
    revalidate_preflight normalized_absolute action_hash file_bindings subject_of hash_file_bindings
    approval_binding inspect_each inspect_path_list evaluate_read_file evaluate_read_directory
    evaluate_search evaluate_context evaluate_rag evaluate_git_read
runs = ((_, refl, refl), (_, refl, refl), (_, refl, refl), (_, refl, refl))

check-authorized_example :
    (evaluation : Evaluation) × (evaluate host codec reading ≡ ok evaluation)
    × IsLetRun host codec calls engine
        (check host codec calls engine reading).1
        reading
        evaluation
        runs.0.0
check-authorized_example = check-authorized host codec calls engine reading runs.0.1 runs.0.2

check-forbidden_example : allowed_report runs.1.0.report ≡ false
check-forbidden_example = check-forbidden host codec calls engine tampering refl runs.1.1

issue_approval-needed_example :
    (committing.approval_id ≡ none)
    × ((evaluation : Evaluation) × (binding : ApprovalBinding) × (evaluate host codec committing
          ≡ ok evaluation)
        × (needs_approval evaluation.report.decision ≡ true)
        × (approval_binding host codec committing evaluation.paths ≡ ok binding)
        × ((issue_at codec engine.approvals (bytes "a1") true binding confirmation 60 1000).0
            ≡ ok runs.3.0))
    × ((1 ≤ 60)
        × (60 ≤ 1800)
        × (runs.3.0.state ≡ available)
        × (runs.3.0.expires_unix_ms ≤ 1000 + 60 * 1000))
issue_approval-needed_example =
    issue_approval-needed host codec engine committing confirmation 60 (bytes "a1") true 1000
      runs.3.1

abbrev reason : Text
reason = bytes "a reason that is longer"

bounded-fits_example :
    (length (bounded reason 20) ≤ 20)
    × (length reason ≤ 20 → bounded reason 20 ≡ reason)
    × (20 < length reason
        → (n : ℕ) × IsLastBoundary reason 4 n
          × (bounded reason 20 ≡ take n reason ++ bytes "...[truncated]"))
bounded-fits_example = bounded-fits reason 20 (omega arith)

reason_is_cut : bounded reason 20 ≡ bytes "a re...[truncated]"
unfolding bounded is_char_boundary bytes ℕ_discrete
reason_is_cut = refl

revalidate_observed-unchanged_example :
    (security_context_hash host codec reading ≡ ok runs.2.0.security_context_hash)
    × ((fresh : Evaluation) × (evaluate host codec reading ≡ ok fresh)
        × (fresh.paths ≡ runs.2.0.paths)
        × (str_eq (decision_rule_id fresh.report.decision) runs.2.0.base_rule_id ≡ true))
    × All (λ before. revalidate host before ≡ ok before) runs.2.0.paths
revalidate_observed-unchanged_example =
    revalidate_observed-unchanged host codec runs.2.0 reading runs.2.2
