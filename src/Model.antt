-- ===== src/Model.antt =====
-- crates/opticcode-policy/src/model.rs: the modes, actions, requests, decisions and reports. Texts
-- that the program builds or inspects are `Text`; the fixed names of rules, scopes and conditions
-- are native strings. The records of the actions are in the child module.
pub mod Actions
use optic_code.FilePath.{FilePath}
use optic_code.Model.Actions.{PolicyAction}
use optic_code.Prelude.{Bool, Eq, List, Option, String, false, true, ℕ, ◌*◌}
use optic_code.Text.{Text}

abbrev pub max_policy_request_id_bytes : ℕ
max_policy_request_id_bytes = 128

abbrev pub max_policy_identifier_bytes : ℕ
max_policy_identifier_bytes = 160

abbrev pub max_policy_paths : ℕ
max_policy_paths = 512

abbrev pub max_policy_arguments : ℕ
max_policy_arguments = 256

abbrev pub max_policy_argument_bytes : ℕ
max_policy_argument_bytes = 8 * 1024

abbrev pub max_policy_environment_keys : ℕ
max_policy_environment_keys = 32

abbrev pub max_policy_timeout_ms : ℕ
max_policy_timeout_ms = 60 * 60 * 1000

abbrev pub max_policy_output_bytes : ℕ
max_policy_output_bytes = 16 * 1024 * 1024

abbrev pub policy_schema_version : ℕ
policy_schema_version = 1

pub data PolicyMode : Type 0 where
  read_only worktree_edit approved_apply : PolicyMode

pub data ActionOrigin : Type 0 where
  user chat extension cli recovery model unknown : ActionOrigin

unfoldable pub PolicyMode-discrete : Discrete PolicyMode
PolicyMode-discrete = hlevel

instance abbrev pub mode_eq : Eq PolicyMode
mode_eq = record { dec = PolicyMode-discrete }

unfoldable pub ActionOrigin-discrete : Discrete ActionOrigin
ActionOrigin-discrete = hlevel

instance abbrev pub origin_eq : Eq ActionOrigin
origin_eq = record { dec = ActionOrigin-discrete }

pub record PolicyClient : Type 0 where
  pub name : Text
  pub version : Text

pub record GitRepositoryBoundary : Type 0 where
  pub worktree_root : FilePath
  pub git_dir : FilePath
  pub common_dir : FilePath
  pub index : FilePath
  pub object_dir : FilePath
  pub head : Text
  pub main_worktree : Bool

pub record ActiveWorktree : Type 0 where
  pub run_id : Text
  pub owner_workspace_id : Text
  pub owner_request_id : Text
  pub root : FilePath
  pub source_root : FilePath
  pub base_head : Text
  pub git_dir : FilePath
  pub common_dir : FilePath

pub record PolicyWorkspace : Type 0 where
  pub workspace_id : Text
  pub root : FilePath
  pub repository : Option GitRepositoryBoundary
  pub active_worktree : Option ActiveWorktree
  pub working_tree_digest : Option Text
  pub repository_clean : Option Bool

pub record PolicyRequest : Type 0 where
  pub schema_version : ℕ
  pub protocol : Text
  pub request_id : Text
  pub action_id : Text
  pub origin : ActionOrigin
  pub profile : Text
  pub client : PolicyClient
  pub mode : PolicyMode
  pub workspace : PolicyWorkspace
  pub action : PolicyAction
  pub approval_id : Option Text

pub data RiskLevel : Type 0 where
  low medium high critical : RiskLevel

pub record Allowed : Type 0 where
  pub rule_id : String
  pub risk : RiskLevel
  pub scope : String
  pub conditions : List String

pub record NeedsApproval : Type 0 where
  pub rule_id : String
  pub reason : Text
  pub risk : RiskLevel
  pub summary : Text

pub record Denied : Type 0 where
  pub rule_id : String
  pub reason : Text
  pub risk : RiskLevel

-- The struct variants carry a record with the variant's fields.
pub data PolicyDecision : Type 0 where
  allow : Allowed → PolicyDecision
  require_approval : NeedsApproval → PolicyDecision
  deny : Denied → PolicyDecision

-- `PolicyDecision::kind`, `rule_id` and `risk`
unfoldable pub decision_kind : PolicyDecision → String
decision_kind (allow _) = "allow"
decision_kind (require_approval _) = "require_approval"
decision_kind (deny _) = "deny"

unfoldable pub decision_rule_id : PolicyDecision → String
decision_rule_id (allow a) = a.rule_id
decision_rule_id (require_approval a) = a.rule_id
decision_rule_id (deny d) = d.rule_id

unfoldable pub decision_risk : PolicyDecision → RiskLevel
decision_risk (allow a) = a.risk
decision_risk (require_approval a) = a.risk
decision_risk (deny d) = d.risk

-- The hashes and identifiers of a report, beside its decision.
pub record PolicyReport : Type 0 where
  pub schema_version : ℕ
  pub protocol : Text
  pub policy_version : Text
  pub request_id : Text
  pub action_id : Text
  pub action_kind : String
  pub action_hash : Text
  pub workspace_hash : Text
  pub decision : PolicyDecision
  pub user_reason : Text
  pub technical_reason : Text
  pub recommended_action : Text
  pub retriable : Bool
  pub revalidation_required : Bool
  pub audit_event_id : Option Text

abbrev pub is_allow : PolicyDecision → Bool
is_allow (allow _) = true
is_allow _ = false

-- `PolicyReport::allowed`
unfoldable pub allowed_report : PolicyReport → Bool
allowed_report r = is_allow r.decision
