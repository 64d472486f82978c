-- ===== src/Tests/Store.antt =====
-- The approval store and the audit at work: one binding, its record, and a codec for it.
use optic_code.Approval.{
  ApprovalGrant, ApprovalRecord, ApprovalState, ApprovalStore, Codec, NativeConfirmation, available,
  check_record, claim_record, consume_at, consumed, hash_json, issue_at, issue_checked, new_record,
  read_record, settle, take_record, validate_storage_id, was_used, write_file_at,
}
use optic_code.Approval.Binding.{
  ApprovalBinding, ApprovalFileBinding, ApprovalFileBinding-discrete, FileBindings-discrete,
  Texts-discrete, compare_binding, expired, has_repeat, normalized, reused, transaction_changed,
  validate_binding, validate_bounded_identifier, validate_hash,
}
use optic_code.Approval.Drift.{Backed, compare_binding_iff, consume_at-Backed}
use optic_code.Approval.OneShot.{IsSpent, consume_at-one_shot, here, later}
use optic_code.Approval.RoundTrip.{IsCodec, consume_at-issue_at, quiet_calls}
use optic_code.Audit.{AuditEvent, AuditFile, RotationCalls, rotate_to_limits}
use optic_code.Model.{PolicyMode-discrete, approved_apply, low, user}
use optic_code.Prelude.{
  Eq, List, String, [], arith, err, false, if◌then◌else◌, none, ok, refl, true, ℕ, ℕ_discrete, ◌==◌,
  ◌↔◌, ◌∷◌, ◌≡◌,
}
use optic_code.Tests.World.{digest}
use optic_code.Text.{Text, Text-discrete, bytes, text_lt}

abbrev file_binding : ApprovalFileBinding
file_binding = record { path_hash = digest; expected_hash = digest }

abbrev pub binding : ApprovalBinding
binding = record {
  request_id = bytes "rq";
  workspace_id = bytes "ws";
  workspace_root_hash = digest;
  mode = approved_apply;
  base_head = digest;
  working_tree_digest = digest;
  diff_hash = digest;
  files_hash = digest;
  files = file_binding ∷ [];
  action_hashes = digest ∷ [];
  transaction_id = bytes "tx";
}

abbrev issued_record : ApprovalRecord
issued_record = record {
  schema_version = 1;
  issued_unix_ms = 1000;
  expires_unix_ms = 61000;
  confirmation_hash = digest;
  binding_hash = digest;
  binding = binding;
}

ApprovalRecord-discrete : Discrete ApprovalRecord
ApprovalRecord-discrete = hlevel ℕ_discrete

instance abbrev record_eq : Eq ApprovalRecord
record_eq = record { dec = ApprovalRecord-discrete }

abbrev codec : Codec
codec = record {
  hash = λ _. digest;
  binding_json = λ _. ok (bytes "binding");
  files_json = λ _. ok (bytes "files");
  record_json = λ r. if r == issued_record then ok (bytes "record") else err [];
  parse_record = λ _. ok issued_record;
}

codec-IsCodec : IsCodec codec
unfolding bytes
codec-IsCodec = record { reads_back = λ r json h. ground arith; digest_length = λ _. refl }

abbrev empty_store : ApprovalStore
empty_store = record { active_dir = λ _. none; used_dir = λ _. none }

abbrev confirmation : NativeConfirmation
confirmation = record { client = bytes "ide"; confirmation_id = bytes "c1" }

abbrev grant : ApprovalState → ApprovalGrant
grant state = record {
  schema_version = 1;
  approval_id = bytes "a1";
  issued_unix_ms = 1000;
  expires_unix_ms = 61000;
  binding_hash = digest;
  state = state;
}

abbrev one_grant : ApprovalStore
one_grant = (issue_at codec empty_store (bytes "a1") true binding confirmation 60 1000).1

issued_grant :
    (issue_at codec empty_store (bytes "a1") true binding confirmation 60 1000).0
    ≡ ok (grant available)
unfolding consume_at claim_record take_record settle check_record read_record issue_at issue_checked
    new_record write_file_at hash_json validate_storage_id normalized validate_binding has_repeat
    validate_hash validate_bounded_identifier compare_binding bytes ℕ_discrete Text-discrete
    ApprovalRecord-discrete ApprovalFileBinding-discrete FileBindings-discrete Texts-discrete
    PolicyMode-discrete
issued_grant = refl

unused : was_used empty_store (bytes "a1") ≡ false
unused = refl

consume_at-issue_at_example :
    (consume_at codec quiet_calls one_grant (bytes "a1") binding 2000).0 ≡ ok (grant consumed)
consume_at-issue_at_example =
    consume_at-issue_at codec empty_store (bytes "a1") binding confirmation 60 1000 2000
      codec-IsCodec issued_grant unused (omega arith) (omega arith)

accepted :
    (consume_at codec quiet_calls one_grant (bytes "a1") binding 2000).0 ≡ ok (grant consumed)
unfolding consume_at claim_record take_record settle check_record read_record issue_at issue_checked
    new_record write_file_at hash_json validate_storage_id normalized validate_binding has_repeat
    validate_hash validate_bounded_identifier compare_binding bytes ℕ_discrete Text-discrete
    ApprovalRecord-discrete ApprovalFileBinding-discrete FileBindings-discrete Texts-discrete
    PolicyMode-discrete
accepted = refl

consume_at-Backed_example :
    (content : Text) × (r : ApprovalRecord) × Backed codec one_grant
      (bytes "a1")
      binding
      2000
      (grant consumed)
      content
      r
consume_at-Backed_example =
    consume_at-Backed codec quiet_calls one_grant (bytes "a1") binding 2000 accepted

-- presented a minute late
abbrev expired_once : ApprovalStore
expired_once = (consume_at codec quiet_calls one_grant (bytes "a1") binding 99000).1

late_is_expired :
    (consume_at codec quiet_calls one_grant (bytes "a1") binding 99000).0 ≡ err expired
unfolding consume_at claim_record take_record settle check_record read_record issue_at issue_checked
    new_record write_file_at hash_json validate_storage_id normalized validate_binding has_repeat
    validate_hash validate_bounded_identifier compare_binding bytes ℕ_discrete Text-discrete
    ApprovalRecord-discrete ApprovalFileBinding-discrete FileBindings-discrete Texts-discrete
    PolicyMode-discrete
late_is_expired = refl

late-IsSpent : IsSpent (consume_at codec quiet_calls one_grant (bytes "a1") binding 99000).0
late-IsSpent = rw late_is_expired tt

consume_at-one_shot_example :
    (consume_at codec quiet_calls
      (issue_at codec expired_once (bytes "a2") true binding confirmation 60 1000).1
      (bytes "a1")
      binding
      2000).0
    ≡ err reused
consume_at-one_shot_example =
    consume_at-one_shot codec quiet_calls one_grant (bytes "a1") binding 99000
      (issue_at codec expired_once (bytes "a2") true binding confirmation 60 1000).1 quiet_calls
      binding 2000 late-IsSpent
      (later here (
        optic_code.Approval.OneShot.issued expired_once (bytes "a2") true binding confirmation 60
          1000))

abbrev drifted : ApprovalBinding
drifted = record binding { transaction_id = bytes "ty" }

compare_binding_iff_example : (compare_binding binding drifted ≡ ok tt) ↔ (binding ≡ drifted)
compare_binding_iff_example = compare_binding_iff binding drifted

drift_is_seen : compare_binding binding drifted ≡ err transaction_changed
unfolding consume_at claim_record take_record settle check_record read_record issue_at issue_checked
    new_record write_file_at hash_json validate_storage_id normalized validate_binding has_repeat
    validate_hash validate_bounded_identifier compare_binding bytes ℕ_discrete Text-discrete
    ApprovalRecord-discrete ApprovalFileBinding-discrete FileBindings-discrete Texts-discrete
    PolicyMode-discrete
drift_is_seen = refl

abbrev event : AuditEvent
event = record {
  schema_version = 1;
  event_id = [];
  timestamp_unix_ms = 1;
  request_id = bytes "rq";
  action_id_hash = digest;
  action_kind = bytes "read_file";
  action_hash = digest;
  rule_id = bytes "read.file";
  decision = bytes "allow";
  risk = low;
  workspace_hash = digest;
  origin = user;
  approval_state = bytes "none";
  approval_hash = none;
  transaction_hash = none;
  result = bytes "authorized";
  duration_us = 3;
}

abbrev audit_file : String → ℕ → AuditFile
audit_file name size = record { name = bytes name; byte_count = size; content = event }

abbrev audit_files : List AuditFile
audit_files = audit_file "b" 600 ∷ audit_file "a" 500 ∷ audit_file "c" 700 ∷ []

abbrev rotation : RotationCalls
rotation = record { listed = ok tt; looked = λ _. true; removed = λ _. ok tt }

only_the_newest : rotate_to_limits rotation 2 1000 audit_files ≡ (ok tt, audit_file "c" 700 ∷ [])
unfolding rotate_to_limits bytes text_lt ℕ_discrete
only_the_newest = refl
