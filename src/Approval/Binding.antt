-- ===== src/Approval/Binding.antt =====
-- crates/opticcode-policy/src/approval.rs: what an approval is bound to, its validation and the
-- comparison with the state that is observed when it is used.
use optic_code.Model.{PolicyMode, mode_eq}
use optic_code.Prelude.{
  Bool, Eq, List, Result, String, [], all, all_ok, any, contains, fail_if, false, is_empty, length,
  ltb, map, nat_eq, not, ok, ℕ, ℕ_discrete, ◌!=◌, ◌>>◌, ◌||◌, ◌∷◌,
}
use optic_code.Text.{Text, bytes, is_ascii_hexdigit, is_control, text_eq}

abbrev pub max_approval_files : ℕ
max_approval_files = 512

abbrev pub max_approval_actions : ℕ
max_approval_actions = 128

pub record ApprovalFileBinding : Type 0 where
  pub path_hash : Text
  pub expected_hash : Text

unfoldable pub ApprovalFileBinding-discrete : Discrete ApprovalFileBinding
ApprovalFileBinding-discrete = hlevel ℕ_discrete

instance abbrev pub file_binding_eq : Eq ApprovalFileBinding
file_binding_eq = record { dec = ApprovalFileBinding-discrete }

unfoldable pub FileBindings-discrete : Discrete (List ApprovalFileBinding)
FileBindings-discrete = hlevel ℕ_discrete

instance abbrev pub file_bindings_eq : Eq (List ApprovalFileBinding)
file_bindings_eq = record { dec = FileBindings-discrete }

unfoldable pub Texts-discrete : Discrete (List Text)
Texts-discrete = hlevel ℕ_discrete

instance abbrev pub texts_eq : Eq (List Text)
texts_eq = record { dec = Texts-discrete }

pub record ApprovalBinding : Type 0 where
  pub request_id : Text
  pub workspace_id : Text
  pub workspace_root_hash : Text
  pub mode : PolicyMode
  pub base_head : Text
  pub working_tree_digest : Text
  pub diff_hash : Text
  pub files_hash : Text
  pub files : List ApprovalFileBinding
  pub action_hashes : List Text
  pub transaction_id : Text

pub data ApprovalError : Type 0 where
  missing expired reused wrong_request wrong_workspace wrong_mode head_changed : ApprovalError
  working_tree_changed diff_changed files_changed actions_changed : ApprovalError
  transaction_changed invalid_record : ApprovalError

-- `Display`
unfoldable pub error_text : ApprovalError → String
error_text missing = "approval does not exist"
error_text expired = "approval expired"
error_text reused = "approval was already consumed"
error_text wrong_request = "approval belongs to another request"
error_text wrong_workspace = "approval belongs to another workspace"
error_text wrong_mode = "approval belongs to another policy mode"
error_text head_changed = "repository HEAD changed after approval"
error_text working_tree_changed = "working tree changed after approval"
error_text diff_changed = "verified diff changed after approval"
error_text files_changed = "approved file set or hashes changed"
error_text actions_changed = "approved action list changed"
error_text transaction_changed = "transaction binding changed"
error_text invalid_record = "approval record is invalid"

-- `validate_hash` and `validate_bounded_identifier`
unfoldable pub validate_hash : Text → Result Text Unit
validate_hash value =
    fail_if (length value != 64 || not (all is_ascii_hexdigit value))
      (bytes "approval binding contains an invalid hash")

unfoldable pub validate_bounded_identifier : Text → ℕ → Result Text Unit
validate_bounded_identifier value max =
    fail_if (is_empty value || ltb max (length value) || any is_control value)
      (bytes "approval binding contains an invalid identifier")

abbrev file_hashes : List ApprovalFileBinding → List (Result Text Unit)
file_hashes [] = []
file_hashes (f ∷ rest) =
    validate_hash f.path_hash ∷ validate_hash f.expected_hash ∷ file_hashes rest

unfoldable pub validate_binding : ApprovalBinding → Result Text Unit
unfolding validate_hash validate_bounded_identifier
validate_binding b = do
  all_ok (
      validate_bounded_identifier b.request_id 160
      ∷ validate_bounded_identifier b.workspace_id 160
      ∷ validate_hash b.workspace_root_hash
      ∷ validate_hash b.working_tree_digest
      ∷ validate_hash b.diff_hash
      ∷ validate_hash b.files_hash
      ∷ validate_bounded_identifier b.base_head 160
      ∷ validate_bounded_identifier b.transaction_id 160
      ∷ [])
  fail_if (is_empty b.files || ltb max_approval_files (length b.files))
      (bytes "approval must bind a bounded non-empty file list")
  fail_if (is_empty b.action_hashes || ltb max_approval_actions (length b.action_hashes))
      (bytes "approval must bind a bounded non-empty action list")
  all_ok (file_hashes b.files)
  all_ok (map validate_hash b.action_hashes)

-- The set of the members is smaller than the list: some member is repeated.
unfoldable pub has_repeat {ℓ} : {A : Type ℓ} ⦃e : Eq A⦄ → List A → Bool
has_repeat [] = false
has_repeat (x ∷ xs) = contains xs x || has_repeat xs

-- `ApprovalBinding::normalized`
unfoldable pub normalized : ApprovalBinding → Result Text ApprovalBinding
normalized b = do
  validate_binding b
  fail_if (has_repeat b.files) (bytes "approval file bindings must be unique")
  fail_if (has_repeat b.action_hashes) (bytes "approval action hashes must be unique")
  ok b

unfoldable pub compare_binding : ApprovalBinding → ApprovalBinding → Result ApprovalError Unit
compare_binding expected observed = do
  fail_if (expected.request_id != observed.request_id) wrong_request
  fail_if
      (expected.workspace_id != observed.workspace_id
        || expected.workspace_root_hash != observed.workspace_root_hash)
      wrong_workspace
  fail_if (expected.mode != observed.mode) wrong_mode
  fail_if (expected.base_head != observed.base_head) head_changed
  fail_if (expected.working_tree_digest != observed.working_tree_digest) working_tree_changed
  fail_if (expected.diff_hash != observed.diff_hash) diff_changed
  fail_if (expected.files_hash != observed.files_hash || expected.files != observed.files)
      files_changed
  fail_if (expected.transaction_id != observed.transaction_id) transaction_changed
  fail_if (expected.action_hashes != observed.action_hashes) actions_changed
