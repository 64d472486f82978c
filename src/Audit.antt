-- ===== src/Audit.antt =====
-- `AuditStore::record` and its rotation, of crates/opticcode-policy/src/audit.rs. The events of one
-- workspace are a directory of named files; the identifiers, the clock and the answers of the system
-- calls are arguments.
pub mod Rotation
use optic_code.Approval.{json_name, validate_storage_id}
use optic_code.Model.{ActionOrigin, RiskLevel}
use optic_code.Prelude.{
  Bool, List, Option, Result, [], all, any, err, fail_if, false, if◌then◌else◌, is_empty, leb,
  length, ltb, map_ok, min, nat_eq, none, not, ok, some, true, usize_max, ℕ, ◌!=◌, ◌&&◌, ◌*◌, ◌++◌,
  ◌+◌, ◌-◌, ◌==◌, ◌>>=◌, ◌>>◌, ◌||◌, ◌∷◌,
}
use optic_code.Text.{Text, bytes, is_ascii_hexdigit, is_control, text_eq, text_lt}

abbrev pub max_audit_events : ℕ
max_audit_events = 2048

abbrev pub max_audit_bytes : ℕ
max_audit_bytes = 32 * 1024 * 1024

abbrev max_audit_record_bytes : ℕ
max_audit_record_bytes = 64 * 1024

pub record AuditEvent : Type 0 where
  pub schema_version : ℕ
  pub event_id : Text
  pub timestamp_unix_ms : ℕ
  pub request_id : Text
  pub action_id_hash : Text
  pub action_kind : Text
  pub action_hash : Text
  pub rule_id : Text
  pub decision : Text
  pub risk : RiskLevel
  pub workspace_hash : Text
  pub origin : ActionOrigin
  pub approval_state : Text
  pub approval_hash : Option Text
  pub transaction_hash : Option Text
  pub result : Text
  pub duration_us : ℕ

pub record AuditFile : Type 0 where
  pub name : Text
  pub byte_count : ℕ
  pub content : AuditEvent

-- The event directory of each workspace digest.
abbrev pub AuditStore : Type 0
AuditStore = Text → List AuditFile

-- `validate_hash` of the audit
unfoldable pub validate_digest : Text → Result Text Unit
validate_digest value =
    fail_if (length value != 64 || not (all is_ascii_hexdigit value)) (bytes "invalid audit digest")

abbrev invalid_field : Text → Bool
invalid_field value = is_empty value || ltb 256 (length value) || any is_control value

abbrev validate_optional : Option Text → Result Text Unit
validate_optional none = ok tt
validate_optional (some value) = validate_digest value

unfoldable pub validate_event : AuditEvent → Result Text Unit
unfolding validate_digest validate_storage_id
validate_event e = do
  fail_if (e.schema_version != 1) (bytes "unsupported policy audit schema")
  fail_if
      (any invalid_field (
        e.request_id ∷ e.action_id_hash ∷ e.action_kind ∷ e.action_hash ∷ e.rule_id ∷ e.decision
        ∷ e.workspace_hash ∷ e.approval_state ∷ e.result ∷ []))
      (bytes "policy audit event contains an invalid bounded field")
  (if is_empty e.event_id then ok tt else validate_storage_id e.event_id)
  validate_digest e.action_id_hash
  validate_digest e.action_hash
  validate_digest e.workspace_hash
  validate_optional e.approval_hash
  validate_optional e.transaction_hash

-- `sort_by` on the paths: an insertion sort by name
unfoldable pub insert_file : AuditFile → List AuditFile → List AuditFile
insert_file f [] = f ∷ []
insert_file f (g ∷ rest) = if text_lt g.name f.name then g ∷ insert_file f rest else f ∷ g ∷ rest

unfoldable pub sort_files : List AuditFile → List AuditFile
unfolding insert_file
sort_files [] = []
sort_files (f ∷ rest) = insert_file f (sort_files rest)

abbrev pub total_bytes : List AuditFile → ℕ
total_bytes [] = 0
total_bytes (f ∷ rest) = f.byte_count + total_bytes rest

-- What a rotation asks of the outside: the listing of the directory, the look at an entry (a regular
-- file or not), and its removal, where an entry that is gone already is no error.
pub record RotationCalls : Type 0 where
  pub listed : Result Text Unit
  pub looked : Text → Bool
  pub removed : Text → Result Text Unit

-- a removal that fails ends the rotation
abbrev pub after_removal :
    Result Text Unit
    → List AuditFile
    → Result Text Unit × List AuditFile
    → Result Text Unit × List AuditFile
after_removal (err e) files after = (err e, files)
after_removal (ok _) files after = after

-- the loop of `rotate_to_limits`: the oldest files go while there are too many files or bytes
unfoldable pub rotate_from :
    RotationCalls → ℕ → ℕ → ℕ → List AuditFile → Result Text Unit × List AuditFile
rotate_from calls max_bytes remove_count bytes_left [] = (ok tt, [])
rotate_from calls max_bytes remove_count bytes_left (f ∷ rest) =
    let after = rotate_from calls max_bytes (remove_count - 1) (bytes_left - f.byte_count) rest in
    if remove_count == 0 && leb bytes_left max_bytes
    then (ok tt, f ∷ rest)
    else after_removal (calls.removed f.name) (f ∷ rest) after

-- the entries that a look takes for regular files, or for something else
unfoldable pub looked_at : RotationCalls → Bool → List AuditFile → List AuditFile
looked_at calls seen [] = []
looked_at calls seen (f ∷ rest) =
    let others = looked_at calls seen rest in
    if (if seen then calls.looked f.name else not (calls.looked f.name)) then f ∷ others else others

abbrev pub rotate_seen :
    RotationCalls → ℕ → ℕ → List AuditFile → List AuditFile → Result Text Unit × List AuditFile
rotate_seen calls max_events max_bytes seen unseen =
    let (result, kept) =
      rotate_from calls max_bytes (length seen - max_events) (min (total_bytes seen) usize_max)
        (sort_files seen) in
    (result, kept ++ unseen)

abbrev pub rotate_listed :
    RotationCalls → ℕ → ℕ → List AuditFile → Result Text Unit → Result Text Unit × List AuditFile
rotate_listed calls max_events max_bytes files (err e) = (err e, files)
rotate_listed calls max_events max_bytes files (ok _) =
    rotate_seen calls max_events max_bytes (looked_at calls true files)
      (looked_at calls false files)

unfoldable pub rotate_to_limits :
    RotationCalls → ℕ → ℕ → List AuditFile → Result Text Unit × List AuditFile
unfolding sort_files rotate_from looked_at
rotate_to_limits calls max_events max_bytes files =
    rotate_listed calls max_events max_bytes files calls.listed

-- What `record` asks of the outside: an identifier, the JSON of the event, whether the file could be
-- created, and the calls of the rotation.
pub record AuditCalls : Type 0 where
  pub fresh_id : Text
  pub event_json : AuditEvent → Result Text Text
  pub created : Bool
  pub rotation : RotationCalls

abbrev pub with_id : AuditCalls → AuditEvent → AuditEvent
with_id calls event =
    if is_empty event.event_id then record event { event_id = calls.fresh_id } else event

-- the checks and the size of the file, up to its creation
unfoldable pub checked_size : AuditCalls → AuditEvent → Result Text ℕ
checked_size calls event = do
  validate_event event
  validate_storage_id (with_id calls event).event_id
  json ← calls.event_json (with_id calls event)
  let content = json ++ bytes "\n"
  fail_if (ltb max_audit_record_bytes (length content))
      (bytes "policy audit event exceeds the bounded record size")
  fail_if (not calls.created) (bytes "failed to publish state record")
  ok (length content)

abbrev pub with_workspace : AuditStore → Text → List AuditFile → AuditStore
with_workspace store hash files workspace = if workspace == hash then files else store workspace

abbrev pub published : AuditStore → AuditEvent → ℕ → List AuditFile
published store event size =
    record { name = json_name event.event_id; byte_count = size; content = event }
    ∷ store event.workspace_hash

-- the file of the event, and the rotation of its directory
abbrev pub publish_event :
    AuditCalls → AuditStore → AuditEvent → Result Text ℕ → Result Text Text × AuditStore
publish_event calls store event (err e) = (err e, store)
publish_event calls store event (ok size) =
    let (rotated, files) =
      rotate_to_limits calls.rotation max_audit_events max_audit_bytes
        (published store event size) in
    (map_ok (λ _. event.event_id) rotated, with_workspace store event.workspace_hash files)

unfoldable pub record_event : AuditCalls → AuditStore → AuditEvent → Result Text Text × AuditStore
unfolding checked_size
record_event calls store event =
    publish_event calls store (with_id calls event) (checked_size calls event)
