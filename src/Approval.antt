-- ===== src/Approval.antt =====
-- `ApprovalStore` of crates/opticcode-policy/src/approval.rs: one-shot grants as files. A directory
-- maps the names of its files to their contents; what the system calls answer is an argument, so that
-- every failure can be chosen.
pub mod Binding
pub mod RoundTrip
pub mod OneShot
pub mod Drift
use optic_code.Approval.Binding.{
  ApprovalBinding, ApprovalError, ApprovalFileBinding, compare_binding, expired, invalid_record,
  missing, normalized, reused, validate_bounded_identifier,
}
use optic_code.Prelude.{
  Bool, List, Option, Result, [], all, err, fail_if, if◌then◌else◌, is_empty, is_ok, is_some,
  length, ltb, map_err, map_ok, min, nat_eq, none, not, ok, saturating_add, some, usize_max, ℕ,
  ◌!=◌, ◌*◌, ◌++◌, ◌==◌, ◌>>=◌, ◌>>◌, ◌||◌,
}
use optic_code.Text.{Text, bytes, text_eq}
use optic_code.Validate.{is_id_byte}

abbrev pub max_approval_ttl_seconds : ℕ
max_approval_ttl_seconds = 30 * 60

abbrev max_approval_record_bytes : ℕ
max_approval_record_bytes = 256 * 1024

abbrev pub approval_schema_version : ℕ
approval_schema_version = 1

pub record NativeConfirmation : Type 0 where
  pub client : Text
  pub confirmation_id : Text

-- `NativeConfirmation::explicit`
unfoldable pub explicit_confirmation : Text → Text → Result Text NativeConfirmation
explicit_confirmation client confirmation_id = do
  validate_bounded_identifier client 96
  validate_bounded_identifier confirmation_id 160
  ok (record { client = client; confirmation_id = confirmation_id })

pub data ApprovalState : Type 0 where
  available consumed : ApprovalState

pub record ApprovalGrant : Type 0 where
  pub schema_version : ℕ
  pub approval_id : Text
  pub issued_unix_ms : ℕ
  pub expires_unix_ms : ℕ
  pub binding_hash : Text
  pub state : ApprovalState

pub record ApprovalRecord : Type 0 where
  pub schema_version : ℕ
  pub issued_unix_ms : ℕ
  pub expires_unix_ms : ℕ
  pub confirmation_hash : Text
  pub binding_hash : Text
  pub binding : ApprovalBinding

abbrev pub Dir : Type 0
Dir = Text → Option Text

unfoldable pub write_file_at : Dir → Text → Option Text → Dir
write_file_at dir name content other = if other == name then content else dir other

pub record ApprovalStore : Type 0 where
  pub active_dir : Dir
  pub used_dir : Dir

-- `serde_json` and `blake3`, as far as the store calls them.
pub record Codec : Type 0 where
  pub hash : Text → Text
  pub binding_json : ApprovalBinding → Result Text Text
  pub files_json : List ApprovalFileBinding → Result Text Text
  pub record_json : ApprovalRecord → Result Text Text
  pub parse_record : Text → Result Text ApprovalRecord

-- The answers of the system calls of one `consume_at`. Where another process was first, its file is
-- there and ours is gone.
pub data ClaimAnswer : Type 0 where
  claim_created claim_exists claim_failed : ClaimAnswer

pub data TakeAnswer : Type 0 where
  taken gone take_failed : TakeAnswer

pub record ConsumeCalls : Type 0 where
  pub claim : ClaimAnswer
  pub synced : Bool
  pub take : TakeAnswer
  pub readable : Bool
  pub published : Bool

unfoldable pub validate_storage_id : Text → Result Text Unit
validate_storage_id value =
    fail_if (is_empty value || ltb 160 (length value) || not (all is_id_byte value))
      (bytes "invalid policy state identifier")

abbrev pub json_name : Text → Text
json_name id = id ++ bytes ".json"

abbrev pub consuming_name : Text → Text
consuming_name id = id ++ bytes "-consuming.json"

abbrev pub claim_name : Text → Text
claim_name id = id ++ bytes ".claim"

-- `saturating_mul` on 64 bits
abbrev saturating_mul : ℕ → ℕ → ℕ
saturating_mul a b = min (a * b) usize_max

abbrev pub grant_of : Text → ApprovalRecord → ApprovalState → ApprovalGrant
grant_of id r state = record {
  schema_version = approval_schema_version;
  approval_id = id;
  issued_unix_ms = r.issued_unix_ms;
  expires_unix_ms = r.expires_unix_ms;
  binding_hash = r.binding_hash;
  state = state;
}

abbrev pub claimed : ApprovalStore → Text → ApprovalStore
claimed store id = record store {
  used_dir = write_file_at store.used_dir (claim_name id) (some []);
}

abbrev pub was_used : ApprovalStore → Text → Bool
was_used store id =
    is_some (store.used_dir (claim_name id))
    || is_some (store.used_dir (json_name id))
    || is_some (store.used_dir (consuming_name id))

module _ (codec : Codec) where
  unfoldable pub hash_json : ApprovalBinding → Result Text Text
  hash_json b = map_ok codec.hash (codec.binding_json b)

  unfoldable pub read_record : Bool → Text → Result ApprovalError ApprovalRecord
  read_record readable content =
      if ltb max_approval_record_bytes (length content) || not readable
      then err invalid_record
      else map_err (λ _. invalid_record) (codec.parse_record content)

  -- the record that `issue_at` writes
  unfoldable pub new_record : ApprovalBinding → Text → NativeConfirmation → ℕ → ℕ → ApprovalRecord
  new_record binding binding_hash confirmation ttl_seconds now_ms = record {
    schema_version = approval_schema_version;
    issued_unix_ms = now_ms;
    expires_unix_ms = saturating_add now_ms (saturating_mul ttl_seconds 1000);
    confirmation_hash =
        codec.hash (confirmation.client ++ bytes ":" ++ confirmation.confirmation_id);
    binding_hash = binding_hash;
    binding = binding;
  }

  -- `id` is what `new_storage_id` returned, behind its prefix; `created` is whether the record could
  -- be written and renamed into place.
  unfoldable pub issue_checked :
      Text → ApprovalBinding → NativeConfirmation → ℕ → ℕ → Result Text (ApprovalRecord × Text)
  issue_checked id binding confirmation ttl_seconds now_ms = do
    fail_if (ttl_seconds == 0 || ltb max_approval_ttl_seconds ttl_seconds)
        (bytes "approval TTL must be between 1 and 1800 seconds")
    binding ← normalized binding
    binding_hash ← hash_json binding
    validate_storage_id id
    let written = new_record binding binding_hash confirmation ttl_seconds now_ms
    json ← codec.record_json written
    let content = json ++ bytes "\n"
    fail_if (ltb max_approval_record_bytes (length content))
        (bytes "approval record exceeds its bounded size")
    ok (written, content)

  unfoldable pub issue_at :
      ApprovalStore
      → Text
      → Bool
      → ApprovalBinding
      → NativeConfirmation
      → ℕ
      → ℕ
      → Result Text ApprovalGrant × ApprovalStore
  issue_at store id created binding confirmation ttl_seconds now_ms =
      elim (issue_checked id binding confirmation ttl_seconds now_ms) [
        | err e ↦ (err e, store)
        | ok written ↦
            if created
            then (
              ok (grant_of id written.0 available),
              record store {
                active_dir = write_file_at store.active_dir (json_name id) (some written.1);
              },
            )
            else (err (bytes "failed to publish state record"), store)
      ]

  -- the closure behind `read_record`
  unfoldable pub check_record :
      Text → ApprovalBinding → ℕ → ApprovalRecord → Result ApprovalError ApprovalGrant
  check_record id observed now_ms r = do
    current ← map_err (λ _. invalid_record) (normalized observed)
    binding_hash ← map_err (λ _. invalid_record) (hash_json r.binding)
    fail_if
        (r.schema_version != approval_schema_version
          || r.binding_hash != binding_hash
          || ltb r.expires_unix_ms r.issued_unix_ms
          || length r.confirmation_hash != 64)
        invalid_record
    fail_if (ltb r.expires_unix_ms now_ms) expired
    compare_binding r.binding current
    ok (grant_of id r consumed)

  -- behind the second rename: a failed comparison consumes the grant too
  unfoldable pub settle :
      ConsumeCalls
      → Text
      → ApprovalBinding
      → ℕ
      → ApprovalStore
      → Text
      → Result ApprovalError ApprovalGrant × ApprovalStore
  settle calls id observed now_ms store content =
      let outcome = read_record calls.readable content >>= check_record id observed now_ms in
      if calls.published
      then (
        outcome,
        record store {
          used_dir =
              write_file_at (write_file_at store.used_dir (consuming_name id) none) (json_name id)
                (some content);
        },
      )
      else (err invalid_record, store)

  -- behind the claim
  unfoldable pub take_record :
      ConsumeCalls
      → Text
      → ApprovalBinding
      → ℕ
      → ApprovalStore
      → Text
      → Result ApprovalError ApprovalGrant × ApprovalStore
  take_record calls id observed now_ms store content = elim calls.take [
    | gone ↦ (
      err reused,
      record store { active_dir = write_file_at store.active_dir (json_name id) none },
    )
    | take_failed ↦ (err invalid_record, store)
    | taken ↦
        settle calls id observed now_ms
          (record {
            active_dir = write_file_at store.active_dir (json_name id) none;
            used_dir = write_file_at store.used_dir (consuming_name id) (some content);
          })
          content
  ]

  -- behind the tests for the files
  unfoldable pub claim_record :
      ConsumeCalls
      → Text
      → ApprovalBinding
      → ℕ
      → ApprovalStore
      → Text
      → Result ApprovalError ApprovalGrant × ApprovalStore
  claim_record calls id observed now_ms store content = elim calls.claim [
    | claim_exists ↦ (err reused, claimed store id)
    | claim_failed ↦ (err invalid_record, store)
    | claim_created ↦
        if calls.synced
        then take_record calls id observed now_ms (claimed store id) content
        else (err invalid_record, claimed store id)
  ]

  unfoldable pub consume_at :
      ConsumeCalls
      → ApprovalStore
      → Text
      → ApprovalBinding
      → ℕ
      → Result ApprovalError ApprovalGrant × ApprovalStore
  consume_at calls store id observed now_ms =
      if not (is_ok (validate_storage_id id))
      then (err invalid_record, store)
      else if was_used store id
      then (err reused, store)
      else elim (store.active_dir (json_name id)) [
        | none ↦ (err missing, store)
        | some content ↦ claim_record calls id observed now_ms store content
      ]
