-- ===== src/Transaction/History.antt =====
-- The checks on the events of a run directory in crates/opticcode-tools/src/apply_transaction.rs: the
-- event loop of `inspect_run_directory`, with `validate_event_semantics`.
use optic_code.Approval.Binding.{has_repeat}
use optic_code.Prelude.{
  Bool, List, Option, Result, String, [], all, contains, err, false, is_empty, is_some, min, nat_eq,
  none, not, ok, some, true, ℕ, ◌!=◌, ◌&&◌, ◌++◌, ◌+◌, ◌==◌, ◌∷◌,
}
use optic_code.Text.{Text, bytes, text_eq}
use optic_code.Transaction.Journal.{u32_max, valid_transition}
use optic_code.Transaction.Machine.{World}
use optic_code.Transaction.Model.{
  ApplyTransactionEvent, ApplyTransactionManifest, ApplyTransactionState, applied,
  apply_transaction_schema_version, applying, as_str, committed, finalizing, prepared,
  rollback_failed, rolled_back, state_eq,
}
use optic_code.Transaction.Rollback.{paths_of}

-- a file of the events directory with extension `json`
pub record EventFile : Type 0 where
  pub name : Text
  pub is_regular : Bool
  pub event : Result Text ApplyTransactionEvent

-- `if test { errors.push(..) }`
abbrev pub when : Bool → String → List Text
when true message = bytes message ∷ []
when false message = []

abbrev pub differ : Bool → Bool → Bool
differ true b = not b
differ false b = b

abbrev pub subset : List Text → List Text → Bool
subset xs ys = all (contains ys) xs

abbrev pub claims_nothing : ApplyTransactionState → Bool
claims_nothing prepared = true
claims_nothing applying = true
claims_nothing _ = false

abbrev pub claims_all : ApplyTransactionState → Bool
claims_all applied = true
claims_all finalizing = true
claims_all committed = true
claims_all rolled_back = true
claims_all _ = false

abbrev pub is_success : ApplyTransactionState → Bool
is_success committed = true
is_success rolled_back = true
is_success _ = false

unfoldable pub validate_event_semantics :
    ApplyTransactionEvent → ApplyTransactionManifest → List Text
validate_event_semantics event manifest =
    let planned = paths_of manifest.files in
    when (has_repeat event.files) "event contains duplicate file paths"
    ++ when (not (subset event.files planned)) "event contains a file outside its manifest"
    ++ when (claims_nothing event.event_state && not (is_empty event.files))
        "event state must not claim modified files"
    ++ when
        (claims_all event.event_state
          && not (subset event.files planned && subset planned event.files))
        "event state must contain every planned file"
    ++ when (is_success event.event_state && not (is_empty event.errors))
        "successful terminal event contains errors"
    ++ when (event.event_state == rollback_failed && is_empty event.errors)
        "rollback_failed event has no recorded error"
    ++ when
        (is_success event.event_state
          && differ (is_some event.git_snapshot) (is_some manifest.git_before))
        "event Git snapshot does not match manifest policy"

-- `u32::saturating_add(1)`
abbrev pub next_number : ℕ → ℕ
next_number n = min (n + 1) u32_max

abbrev pub semantics_of : Option ApplyTransactionManifest → ApplyTransactionEvent → List Text
semantics_of none event = []
semantics_of (some manifest) event = validate_event_semantics event manifest

abbrev pub last_state :
    Option ApplyTransactionState → List ApplyTransactionEvent → Option ApplyTransactionState
last_state state [] = state
last_state state (e ∷ rest) = last_state (some e.event_state) rest

-- the states that a recovery starts from
abbrev pub is_unfinished : Option ApplyTransactionState → Bool
is_unfinished none = false
is_unfinished (some committed) = false
is_unfinished (some rolled_back) = false
is_unfinished (some _) = true

module _ (w : World) (transaction_id : Text) where
  -- `{:08}-{}.json`
  unfoldable pub event_name : ApplyTransactionEvent → Text
  event_name e = w.show8 e.sequence ++ bytes "-" ++ bytes (as_str e.event_state) ++ bytes ".json"

  -- the checks on an event that was read, where `current` and `expected` come from those before it
  unfoldable pub check_event :
      Option ApplyTransactionManifest
      → Option ApplyTransactionState
      → ℕ
      → Text
      → ApplyTransactionEvent
      → List Text
  check_event manifest current expected name event =
      when (event.schema_version != apply_transaction_schema_version)
        "event has unsupported schema version"
      ++ when (event.transaction_id != transaction_id) "event has a mismatched transaction id"
      ++ when (event.sequence != expected) "event sequence mismatch"
      ++ when (not (valid_transition current event.event_state)) "invalid persisted transition"
      ++ when (name != event_name event) "event filename does not match its sequence/state"
      ++ semantics_of manifest event

  -- the loop over the event files: the events that were read, and the errors
  unfoldable pub check_events :
      Option ApplyTransactionManifest
      → Option ApplyTransactionState
      → ℕ
      → List EventFile
      → List ApplyTransactionEvent × List Text
  check_events manifest current expected [] = ([], [])
  check_events manifest current expected (f ∷ rest) = elim f.is_regular [
    | false ↦
        let r = check_events manifest current expected rest in
        (r.0, bytes "transaction event is a symlink, reparse point, or non-file" ∷ r.1)
    | true ↦ elim f.event [
      | err message ↦
          let r = check_events manifest current expected rest in
          (r.0, (bytes "invalid or truncated transaction event" ++ message) ∷ r.1)
      | ok event ↦
          let r =
            check_events manifest (some event.event_state) (next_number event.sequence) rest in
          (event ∷ r.0, check_event manifest current expected f.name event ++ r.1)
    ]
  ]
