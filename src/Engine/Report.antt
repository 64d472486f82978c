-- ===== src/Engine/Report.antt =====
-- What `PolicyEngine` of crates/opticcode-policy/src/engine.rs keeps and returns, and how a report changes
-- with the answer of the approval store.
use optic_code.Approval.{ApprovalStore, ConsumeCalls}
use optic_code.Approval.Binding.{
  ApprovalError, actions_changed, diff_changed, error_text, expired, files_changed, head_changed,
  invalid_record, missing, reused, transaction_changed, working_tree_changed, wrong_mode,
  wrong_request, wrong_workspace,
}
use optic_code.Audit.{AuditCalls, AuditStore}
use optic_code.FilePath.{FilePath}
use optic_code.Model.{
  PolicyDecision, PolicyReport, PolicyRequest, allow, deny, high, low, require_approval,
}
use optic_code.Model.Actions.{
  PolicyAction, apply_patch, kind, recover_transaction, rollback_transaction,
}
use optic_code.Paths.{Checked, PathSafetyReport}
use optic_code.Prelude.{
  Bool, List, Option, String, [], err, false, none, ok, some, true, ℕ, ◌*◌, ◌∷◌,
}
use optic_code.Rules.{RuleOutcome, denied_by}
use optic_code.Text.{Text, bytes}
use optic_code.Validate.{bounded}

abbrev pub max_technical_reason_bytes : ℕ
max_technical_reason_bytes = 2 * 1024

abbrev pub max_user_reason_bytes : ℕ
max_user_reason_bytes = 512

pub record Evaluation : Type 0 where
  pub report : PolicyReport
  pub paths : List PathSafetyReport

pub record PolicyPreflight : Type 0 where
  pub report : PolicyReport
  pub paths : List PathSafetyReport
  pub request : PolicyRequest
  pub base_rule_id : String
  pub security_context_hash : Text

pub record PolicyEngine : Type 0 where
  pub state_root : FilePath
  pub audit : AuditStore
  pub approvals : ApprovalStore

-- What one `check` asks of the outside, beside the host.
pub record CheckCalls : Type 0 where
  pub consume : ConsumeCalls
  pub now_ms : ℕ
  pub audit : AuditCalls
  pub timestamp_unix_ms : ℕ
  pub duration_us : ℕ

-- an error of `evaluate_action` is a denial
unfoldable pub outcome_of : Checked RuleOutcome → RuleOutcome
outcome_of (ok outcome) = outcome
outcome_of (err error) =
    denied_by error.rule_id high "The requested path is blocked by the safety policy." error.message
      "Choose a regular, non-sensitive path inside the authorized workspace." false

-- the rule and whether to try again, of `apply_approval_failure`
unfoldable pub failure_rule : ApprovalError → String × Bool
failure_rule expired = ("approval.expired", true)
failure_rule reused = ("approval.reused", false)
failure_rule wrong_request = ("approval.request_drift", false)
failure_rule wrong_workspace = ("approval.workspace_drift", false)
failure_rule wrong_mode = ("approval.mode_drift", false)
failure_rule head_changed = ("approval.head_drift", true)
failure_rule working_tree_changed = ("approval.working_tree_drift", true)
failure_rule diff_changed = ("approval.diff_drift", true)
failure_rule files_changed = ("approval.files_drift", true)
failure_rule actions_changed = ("approval.actions_drift", true)
failure_rule transaction_changed = ("approval.transaction_drift", true)
failure_rule missing = ("approval.missing", true)
failure_rule invalid_record = ("approval.invalid", false)

unfoldable pub apply_approval_failure : PolicyReport → ApprovalError → PolicyReport
unfolding failure_rule
apply_approval_failure report error = record report {
  decision =
      deny (record {
        rule_id = (failure_rule error).0;
        reason = bytes (error_text error);
        risk = high;
      });
  user_reason = bytes "The approval is no longer valid for this action.";
  technical_reason = bounded (bytes (error_text error)) max_technical_reason_bytes;
  recommended_action = bytes "Re-verify the proposal and request a new native confirmation.";
  retriable = (failure_rule error).1;
}

-- the report once its approval was consumed
unfoldable pub granted_report : PolicyReport → PolicyAction → PolicyReport
granted_report report action = record report {
  decision = allow (record {
    rule_id = "approval.one_shot";
    risk = low;
    scope = kind action;
    conditions =
        "native confirmation" ∷ "one-shot approval consumed" ∷ "state binding matched"
        ∷ "revalidate immediately before execution" ∷ [];
  });
  user_reason = bytes "The exact approved action may run once.";
  technical_reason = bytes "The runtime consumed a valid state-bound approval record.";
  recommended_action = bytes "Execute immediately, then verify postconditions.";
  retriable = false;
}

abbrev pub transaction_id : PolicyAction → Option Text
transaction_id (apply_patch a) = some a.transaction_id
transaction_id (recover_transaction a) = some a.transaction_id
transaction_id (rollback_transaction a) = some a.transaction_id
transaction_id _ = none

abbrev pub map_option : (Text → Text) → Option Text → Option Text
map_option f none = none
map_option f (some t) = some (f t)

abbrev pub needs_approval : PolicyDecision → Bool
needs_approval (require_approval _) = true
needs_approval _ = false
