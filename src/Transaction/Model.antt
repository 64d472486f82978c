-- ===== src/Transaction/Model.antt =====
-- The data of crates/opticcode-tools/src/apply_transaction.rs, with the Git snapshot of git_state.rs.
use optic_code.FilePath.{FilePath}
use optic_code.Prelude.{Bool, Eq, List, Option, String, false, none, some, true, ℕ, ℕ_discrete}
use optic_code.Text.{Text}

pub data ApplyTransactionState : Type 0 where
  prepared applying applied finalizing committed : ApplyTransactionState
  rollback_started rolled_back rollback_failed : ApplyTransactionState

unfoldable pub ApplyTransactionState-discrete : Discrete ApplyTransactionState
ApplyTransactionState-discrete = hlevel

instance abbrev pub state_eq : Eq ApplyTransactionState
state_eq = record { dec = ApplyTransactionState-discrete }

unfoldable pub OptionState-discrete : Discrete (Option ApplyTransactionState)
OptionState-discrete = hlevel

instance abbrev pub option_state_eq : Eq (Option ApplyTransactionState)
option_state_eq = record { dec = OptionState-discrete }

-- `ApplyTransactionState::as_str` and `is_terminal`
unfoldable pub as_str : ApplyTransactionState → String
as_str prepared = "prepared"
as_str applying = "applying"
as_str applied = "applied"
as_str finalizing = "finalizing"
as_str committed = "committed"
as_str rollback_started = "rollback_started"
as_str rolled_back = "rolled_back"
as_str rollback_failed = "rollback_failed"

unfoldable pub is_terminal : ApplyTransactionState → Bool
is_terminal committed = true
is_terminal rolled_back = true
is_terminal _ = false

pub data ApplyGitPolicy : Type 0 where
  require_clean allow_dirty optional : ApplyGitPolicy

unfoldable pub ApplyGitPolicy-discrete : Discrete ApplyGitPolicy
ApplyGitPolicy-discrete = hlevel

instance abbrev pub git_policy_eq : Eq ApplyGitPolicy
git_policy_eq = record { dec = ApplyGitPolicy-discrete }

pub data ApplyTransactionErrorKind : Type 0 where
  precondition collision invalid_transaction io : ApplyTransactionErrorKind

-- `anyhow::Error`: the kind of an `ApplyTransactionError`, if it is one, and its text.
pub record Failure : Type 0 where
  pub error_kind : Option ApplyTransactionErrorKind
  pub message : Text

unfoldable pub transaction_error : ApplyTransactionErrorKind → Text → Failure
transaction_error k message = record { error_kind = some k; message = message }

-- The content of a file, or `none` where there is no file.
abbrev pub Content : Type 0
Content = Option Text

pub record FileMutation : Type 0 where
  pub path : FilePath
  pub expected_before : Content
  pub desired_after : Content

unfoldable pub replace : FilePath → Text → Text → FileMutation
replace path before after = record {
  path = path;
  expected_before = some before;
  desired_after = some after;
}

unfoldable pub create : FilePath → Text → FileMutation
create path after = record { path = path; expected_before = none; desired_after = some after }

unfoldable pub delete : FilePath → Text → FileMutation
delete path before = record { path = path; expected_before = some before; desired_after = none }

pub record ApplyTransactionRequest : Type 0 where
  pub workspace : FilePath
  pub patch : Text
  pub mutations : List FileMutation
  pub git_policy : ApplyGitPolicy
  pub copied_from : Option FilePath
  pub requested_id : Option Text

pub record ApplyTransactionValidation : Type 0 where
  pub git_policy : ApplyGitPolicy
  pub git_captured : Bool
  pub git_clean : Bool
  pub pre_existing_changes : ℕ
  pub expected_contents_verified : Bool

pub record ApplyTransactionFile : Type 0 where
  pub path : Text
  pub existed_before : Bool
  pub before_hash : Option Text
  pub before_bytes : ℕ
  pub after_hash : Option Text
  pub after_bytes : ℕ
  pub backup_path : Option Text
  pub readonly : Option Bool
  pub unix_mode : Option ℕ

-- `GitChange` and `GitStateSnapshot` (git_state.rs), without the metrics and the schema version, which
-- nothing compares. The status letters and the kind are one text.
pub record GitChange : Type 0 where
  pub status : Text
  pub path : Text
  pub original_path : Option Text
  pub content_fingerprint : Option Text

unfoldable pub GitChanges-discrete : Discrete (List GitChange)
GitChanges-discrete = hlevel ℕ_discrete

instance abbrev pub git_changes_eq : Eq (List GitChange)
git_changes_eq = record { dec = GitChanges-discrete }

pub record GitStateSnapshot : Type 0 where
  pub root : FilePath
  pub changes : List GitChange

pub record ApplyTransactionManifest : Type 0 where
  pub schema_version : ℕ
  pub transaction_id : Text
  pub workspace : FilePath
  pub copied_from : Option FilePath
  pub created_at_unix_ms : ℕ
  pub patch_hash : Text
  pub patch_path : Text
  pub files : List ApplyTransactionFile
  pub validation : ApplyTransactionValidation
  pub git_before : Option GitStateSnapshot

pub record ApplyTransactionEvent : Type 0 where
  pub schema_version : ℕ
  pub transaction_id : Text
  pub sequence : ℕ
  pub recorded_at_unix_ms : ℕ
  pub event_state : ApplyTransactionState
  pub message : Text
  pub files : List Text
  pub errors : List Text
  pub elapsed_ms : ℕ
  pub git_snapshot : Option GitStateSnapshot

pub record ApplyTransactionResult : Type 0 where
  pub schema_version : ℕ
  pub transaction_id : Text
  pub workspace : FilePath
  pub operation_success : Bool
  pub final_state : ApplyTransactionState
  pub rollback_attempted : Bool
  pub rollback_success : Option Bool
  pub planned_files : List Text
  pub modified_files : List Text
  pub restored_files : List Text
  pub errors : List Text
  pub warnings : List Text
  pub duration_ms : ℕ
  pub git_restored : Option Bool

-- The points at which a test may let an execution fail.
pub data ApplyFaultPoint : Type 0 where
  after_first_backup after_prepared before_first_target_write : ApplyFaultPoint
  after_target_staged after_first_target_write after_all_target_writes : ApplyFaultPoint
  before_finalization during_finalization : ApplyFaultPoint
  at_rollback_started after_first_restore : ApplyFaultPoint

abbrev pub apply_transaction_schema_version : ℕ
apply_transaction_schema_version = 1
