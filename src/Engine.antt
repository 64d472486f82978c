-- ===== src/Engine.antt =====
-- `PolicyEngine` of crates/opticcode-policy/src/engine.rs: the evaluation of a request, the check that
-- may spend an approval and writes the audit, the issue of approvals and the revalidation before an
-- execution. The stores are the state; what the outside answers is an argument.
pub mod Binding
pub mod Report
pub mod Authorized
pub mod Forbidden
pub mod Issued
pub mod Revalidated
use text.Mathlib.Text.{◌==◌ as str_eq}
use optic_code.FilePath
use optic_code.Approval.{
  ApprovalGrant, ApprovalStore, Codec, NativeConfirmation, consume_at, issue_at,
}
use optic_code.Approval.Binding.{ApprovalBinding, ApprovalError}
use optic_code.Audit.{AuditEvent, AuditStore, record_event}
use optic_code.Engine.Binding.{action_hash, approval_binding, normalized_absolute}
use optic_code.Engine.Report.{
  CheckCalls, Evaluation, PolicyEngine, PolicyPreflight, apply_approval_failure, granted_report,
  map_option, max_technical_reason_bytes, max_user_reason_bytes, needs_approval, outcome_of,
  transaction_id,
}
use optic_code.Evaluate.{evaluate_action}
use optic_code.FilePath.{FilePath}
use optic_code.Host.{Host}
use optic_code.Model.{
  PolicyDecision, PolicyReport, PolicyRequest, allowed_report, decision_kind, decision_risk,
  decision_rule_id, policy_schema_version, require_approval,
}
use optic_code.Model.Actions.{kind}
use optic_code.Paths.{PathSafetyReport, inspect_root, report_eq, reports_eq, revalidate}
use optic_code.Prelude.{
  Bool, List, Option, Result, String, [], err, fail_if, if◌then◌else◌, is_empty, is_some, map_err,
  map_ok, none, not, ok, some, ℕ, ◌!=◌, ◌++◌, ◌>>=◌, ◌>>◌, ◌||◌, ◌∷◌,
}
use optic_code.Request.{policy_protocol_id, validate_request}
use optic_code.Text.{Text, bytes, text_eq}
use optic_code.Validate.{
  PolicyError, bounded, invalid_path_request, invalid_request, storage_failure,
}

module _ (host : Host) (codec : Codec) where
  unfoldable pub security_context_hash : PolicyRequest → Result PolicyError Text
  security_context_hash request =
      map_ok host.blake3 (map_err invalid_request (host.request_json request))

  unfoldable pub evaluate : PolicyRequest → Result PolicyError Evaluation
  evaluate request = do
    validate_request host request
    workspace_root ← map_err invalid_path_request (inspect_root host request.workspace.root)
    hash ← action_hash host request.action
    let (result, paths) = evaluate_action host request workspace_root request.action []
    let outcome = outcome_of result
    ok (record {
      report = record {
        schema_version = policy_schema_version;
        protocol = policy_protocol_id;
        policy_version = bytes "opticcode.default.v1";
        request_id = request.request_id;
        action_id = request.action_id;
        action_kind = kind request.action;
        action_hash = hash;
        workspace_hash =
            host.blake3
              (request.workspace.workspace_id ++ bytes ":" ++ normalized_absolute workspace_root);
        decision = outcome.decision;
        user_reason = bounded outcome.user_reason max_user_reason_bytes;
        technical_reason = bounded outcome.technical_reason max_technical_reason_bytes;
        recommended_action = bounded outcome.recommended max_user_reason_bytes;
        retriable = outcome.retriable;
        revalidation_required = not (is_empty paths);
        audit_event_id = none;
      };
      paths = paths;
    })

  unfoldable pub ensure_state_outside_workspace :
      PolicyEngine → PolicyRequest → Result PolicyError Unit
  ensure_state_outside_workspace engine request = do
    state ←
        map_err (λ _. storage_failure (bytes "policy state cannot be resolved"))
          (host.canonicalize engine.state_root)
    workspace ← map_err invalid_path_request (inspect_root host request.workspace.root)
    fail_if (FilePath.starts_with state workspace || FilePath.starts_with workspace state)
        (storage_failure (bytes "policy state must not overlap the source workspace"))

  abbrev preflight : PolicyRequest → Evaluation → PolicyReport → Text → PolicyPreflight
  preflight request evaluation report context = record {
    report = report;
    paths = evaluation.paths;
    request = request;
    base_rule_id = decision_rule_id evaluation.report.decision;
    security_context_hash = context;
  }

  unfoldable pub explain : PolicyEngine → PolicyRequest → Result PolicyError PolicyPreflight
  explain engine request = do
    ensure_state_outside_workspace engine request
    evaluation ← evaluate request
    context ← security_context_hash request
    ok (preflight request evaluation evaluation.report context)

  -- the answer of the approval store, as a report and the status for the audit
  abbrev pub approval_outcome :
      PolicyRequest
      → PolicyReport
      → Result ApprovalError ApprovalGrant × ApprovalStore
      → Result PolicyError (PolicyReport × String) × ApprovalStore
  approval_outcome request report (ok _, store) =
      (ok (granted_report report request.action, "consumed"), store)
  approval_outcome request report (err e, store) =
      (ok (apply_approval_failure report e, "invalid"), store)

  -- the approval of a decision that requires one: the binding of the request, then the store
  abbrev pub spend_bound :
      CheckCalls
      → ApprovalStore
      → PolicyRequest
      → Evaluation
      → Text
      → Result PolicyError ApprovalBinding
      → Result PolicyError (PolicyReport × String) × ApprovalStore
  spend_bound calls store request evaluation id (err e) = (err e, store)
  spend_bound calls store request evaluation id (ok binding) =
      approval_outcome request evaluation.report
        (consume_at codec calls.consume store id binding calls.now_ms)

  abbrev pub spend_id :
      CheckCalls
      → ApprovalStore
      → PolicyRequest
      → Evaluation
      → Option Text
      → Result PolicyError (PolicyReport × String) × ApprovalStore
  spend_id calls store request evaluation none = (ok (evaluation.report, "none"), store)
  spend_id calls store request evaluation (some id) =
      spend_bound calls store request evaluation id
        (approval_binding host codec request evaluation.paths)

  unfoldable pub spend_approval :
      CheckCalls
      → ApprovalStore
      → PolicyRequest
      → Evaluation
      → Result PolicyError (PolicyReport × String) × ApprovalStore
  spend_approval calls store request evaluation =
      spend_id calls store request evaluation request.approval_id

  -- the report that goes on, with the status of the approval, for each decision
  abbrev pub authorize_by :
      CheckCalls
      → ApprovalStore
      → PolicyRequest
      → Evaluation
      → PolicyDecision
      → Result PolicyError (PolicyReport × String) × ApprovalStore
  authorize_by calls store request evaluation (require_approval _) =
      spend_approval calls store request evaluation
  authorize_by calls store request evaluation _ =
      (ok (evaluation.report, if is_some request.approval_id then "present" else "none"), store)

  unfoldable pub authorize :
      CheckCalls
      → ApprovalStore
      → PolicyRequest
      → Evaluation
      → Result PolicyError (PolicyReport × String) × ApprovalStore
  unfolding spend_approval
  authorize calls store request evaluation =
      authorize_by calls store request evaluation evaluation.report.decision

  unfoldable pub audit_event : CheckCalls → PolicyRequest → PolicyReport → String → AuditEvent
  audit_event calls request report approval_status = record {
    schema_version = 1;
    event_id = [];
    timestamp_unix_ms = calls.timestamp_unix_ms;
    request_id = request.request_id;
    action_id_hash = host.blake3 request.action_id;
    action_kind = bytes (kind request.action);
    action_hash = report.action_hash;
    rule_id = bytes (decision_rule_id report.decision);
    decision = bytes (decision_kind report.decision);
    risk = decision_risk report.decision;
    workspace_hash = report.workspace_hash;
    origin = request.origin;
    approval_state = bytes approval_status;
    approval_hash = map_option host.blake3 request.approval_id;
    transaction_hash = map_option host.blake3 (transaction_id request.action);
    result = if allowed_report report then bytes "authorized" else bytes "blocked";
    duration_us = calls.duration_us;
  }

  -- the end of `check`: the audit event, then the preflight
  unfoldable pub conclude :
      PolicyRequest
      → Evaluation
      → PolicyReport
      → Result Text Text × AuditStore
      → Result PolicyError PolicyPreflight × AuditStore
  conclude request evaluation report (recorded, audit) = (
    do
      event_id ← map_err storage_failure recorded
      context ← security_context_hash request
      ok (preflight request evaluation (record report { audit_event_id = some event_id }) context),
    audit,
  )

  -- the audit event of an answer of `authorize`, and the preflight
  abbrev pub recorded_check :
      CheckCalls
      → PolicyEngine
      → PolicyRequest
      → Evaluation
      → Result PolicyError (PolicyReport × String) × ApprovalStore
      → Result PolicyError PolicyPreflight × PolicyEngine
  recorded_check calls engine request evaluation (err e, approvals) =
      (err e, record engine { approvals = approvals })
  recorded_check calls engine request evaluation (ok (final, approval_status), approvals) =
      let (result, audit) =
        conclude request evaluation final (
          record_event calls.audit engine.audit
            (audit_event calls request final approval_status)) in
      (result, record engine { approvals = approvals; audit = audit })

  unfoldable pub check_evaluated :
      CheckCalls
      → PolicyEngine
      → PolicyRequest
      → Evaluation
      → Result PolicyError PolicyPreflight × PolicyEngine
  check_evaluated calls engine request evaluation =
      recorded_check calls engine request evaluation
        (authorize calls engine.approvals request evaluation)

  abbrev pub checked :
      CheckCalls
      → PolicyEngine
      → PolicyRequest
      → Result PolicyError Evaluation
      → Result PolicyError PolicyPreflight × PolicyEngine
  checked calls engine request (err e) = (err e, engine)
  checked calls engine request (ok evaluation) = check_evaluated calls engine request evaluation

  unfoldable pub check :
      CheckCalls → PolicyEngine → PolicyRequest → Result PolicyError PolicyPreflight × PolicyEngine
  check calls engine request =
      checked calls engine request
        (ensure_state_outside_workspace engine request >> evaluate request)

  -- the tests of `issue_approval`, and the binding that it issues for
  unfoldable pub issue_binding : PolicyEngine → PolicyRequest → Result PolicyError ApprovalBinding
  issue_binding engine request = do
    ensure_state_outside_workspace engine request
    fail_if (is_some request.approval_id)
        (invalid_request (bytes "cannot issue an approval from a request that already carries one"))
    evaluation ← evaluate request
    fail_if (not (needs_approval evaluation.report.decision))
        (invalid_request (bytes "only require_approval decisions can receive a grant"))
    approval_binding host codec request evaluation.paths

  abbrev pub issue_bound :
      PolicyEngine
      → NativeConfirmation
      → ℕ
      → Text
      → Bool
      → ℕ
      → Result PolicyError ApprovalBinding
      → Result PolicyError ApprovalGrant × PolicyEngine
  issue_bound engine confirmation ttl_seconds id created now_ms (err e) = (err e, engine)
  issue_bound engine confirmation ttl_seconds id created now_ms (ok binding) =
      let (granted, approvals) =
        issue_at codec engine.approvals id created binding confirmation ttl_seconds now_ms in
      (map_err storage_failure granted, record engine { approvals = approvals })

  unfoldable pub issue_approval :
      PolicyEngine
      → PolicyRequest
      → NativeConfirmation
      → ℕ
      → Text
      → Bool
      → ℕ
      → Result PolicyError ApprovalGrant × PolicyEngine
  unfolding issue_binding
  issue_approval engine request confirmation ttl_seconds id created now_ms =
      issue_bound engine confirmation ttl_seconds id created now_ms (issue_binding engine request)

  -- the loop over the authorized paths
  unfoldable pub revalidate_each : List PathSafetyReport → Result PolicyError Unit
  revalidate_each [] = ok tt
  revalidate_each (before ∷ rest) = do
    after ← map_err invalid_path_request (revalidate host before)
    fail_if (before != after) (invalid_request (bytes "policy path changed after authorization"))
    revalidate_each rest

  unfoldable pub revalidate_observed : PolicyPreflight → PolicyRequest → Result PolicyError Unit
  revalidate_observed authorized observed = do
    context ← security_context_hash observed
    fail_if (context != authorized.security_context_hash)
        (invalid_request (bytes "policy security context changed after authorization"))
    fresh ← evaluate observed
    fail_if
        (not (str_eq (decision_rule_id fresh.report.decision) authorized.base_rule_id)
          || fresh.paths != authorized.paths)
        (invalid_request (bytes "policy decision inputs changed after authorization"))
    revalidate_each authorized.paths

  -- `PolicyPreflight::revalidate`
  unfoldable pub revalidate_preflight : PolicyPreflight → Result PolicyError Unit
  unfolding revalidate_observed
  revalidate_preflight authorized = revalidate_observed authorized authorized.request
