-- ===== src/Transaction/Journal.antt =====
-- `TransactionJournal` of crates/opticcode-tools/src/apply_transaction.rs.
use optic_code.Prelude.{
  Bool, List, Option, [], any, false, leb, nat_eq, none, not, some, true, ℕ, ◌&&◌, ◌++◌, ◌+◌, ◌==◌,
  ◌∷◌,
}
use optic_code.Text.{Text, bytes}
use optic_code.Transaction.Machine.{
  Machine, Op, TransactionJournal, World, call, context, gets, modify, raise_if, ◌>>=◌, ◌>>◌,
}
use optic_code.Transaction.Model.{
  ApplyTransactionEvent, ApplyTransactionState, GitStateSnapshot, applied,
  apply_transaction_schema_version, applying, as_str, collision, committed, finalizing,
  invalid_transaction, prepared, rollback_failed, rollback_started, rolled_back, state_eq,
}

unfoldable pub valid_transition : Option ApplyTransactionState → ApplyTransactionState → Bool
valid_transition none prepared = true
valid_transition (some prepared) applying = true
valid_transition (some prepared) rollback_started = true
valid_transition (some applying) applied = true
valid_transition (some applying) rollback_started = true
valid_transition (some applied) finalizing = true
valid_transition (some applied) rollback_started = true
valid_transition (some finalizing) committed = true
valid_transition (some finalizing) rollback_started = true
valid_transition (some committed) rollback_started = true
valid_transition (some rollback_started) rolled_back = true
valid_transition (some rollback_started) rollback_failed = true
valid_transition (some rollback_failed) rollback_started = true
valid_transition _ _ = false

-- `u32::MAX`
abbrev pub u32_max : ℕ
u32_max = 4294967295

abbrev pub state_name : Option ApplyTransactionState → Text
state_name none = bytes "none"
state_name (some state) = bytes (as_str state)

-- an event file of this name is there already
abbrev pub event_exists : List ApplyTransactionEvent → ℕ → ApplyTransactionState → Bool
event_exists events n state = any (λ e. e.sequence == n && e.event_state == state) events

abbrev pub with_journal : (TransactionJournal → TransactionJournal) → Machine → Machine
with_journal f s = record s { journal = f s.journal }

module _ (w : World) where
  -- `write_new_atomic`: the temporary file is written and synced, renamed into place, and the directory
  -- synced; `there` tells whether the artifact exists, `store` is the rename
  unfoldable pub write_new_atomic : (Machine → Bool) → (Machine → Machine) → Op Unit
  write_new_atomic there store = do
    present ← gets there
    raise_if present collision (bytes "refusing to overwrite existing transaction artifact")
    call w
    context (bytes "failed to publish transaction artifact") (call w)
    modify store
    call w

  abbrev pub event_of :
      ApplyTransactionState
      → Text
      → List Text
      → List Text
      → Option GitStateSnapshot
      → Machine
      → ApplyTransactionEvent
  event_of next_state message files errors git_snapshot s = record {
    schema_version = apply_transaction_schema_version;
    transaction_id = s.journal.transaction_id;
    sequence = s.journal.next_sequence;
    recorded_at_unix_ms = w.now_ms s.tick;
    event_state = next_state;
    message = message;
    files = files;
    errors = errors;
    elapsed_ms = w.elapsed_ms s.tick;
    git_snapshot = git_snapshot;
  }

  -- the event is published, and then the journal counts it
  unfoldable pub append_event : ApplyTransactionEvent → Op Unit
  append_event event = do
    context (bytes "failed to append transaction event") (
        write_new_atomic (λ s. event_exists s.events event.sequence event.event_state)
          (λ s. record s { events = s.events ++ event ∷ [] }))
    modify (with_journal (λ j. record j { current_state = some event.event_state }))
    raise_if (leb u32_max event.sequence) invalid_transaction
        (bytes "transaction event sequence overflow")
    modify (with_journal (λ j. record j { next_sequence = event.sequence + 1 }))

  unfoldable pub transition :
      ApplyTransactionState → Text → List Text → List Text → Option GitStateSnapshot → Op Unit
  transition next_state message files errors git_snapshot = do
    current ← gets (λ s. s.journal.current_state)
    raise_if (not (valid_transition current next_state)) invalid_transaction (
        bytes "invalid transaction state transition: "
        ++ state_name current
        ++ bytes " -> "
        ++ bytes (as_str next_state))
    call w
    event ← gets (event_of next_state message files errors git_snapshot)
    append_event event
