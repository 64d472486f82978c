-- ===== src/Transaction/Rollback.antt =====
-- `rollback_manifest` of crates/opticcode-tools/src/apply_transaction.rs: the files are restored in
-- reverse order, the Git state is compared, and the journal gets the outcome.
use mathlib.Core.List.{reverse}
use optic_code.FilePath.{FilePath}
use optic_code.Prelude.{
  Bool, List, Option, Result, String, [], any, err, false, if◌then◌else◌, is_empty, none, not, ok,
  some, true, ℕ, ◌&&◌, ◌++◌, ◌==◌, ◌∷◌,
}
use optic_code.Text.{Text, bytes, contains_text}
use optic_code.Transaction.Git.{verify_git_restored}
use optic_code.Transaction.Journal.{transition}
use optic_code.Transaction.Machine.{
  Op, World, at_first, attempt, check_fault, gets, on_result, pure, ◌>>=◌,
}
use optic_code.Transaction.Model.{
  ApplyTransactionFile, ApplyTransactionManifest, ApplyTransactionResult, ApplyTransactionState,
  Failure, GitStateSnapshot, after_first_restore, apply_transaction_schema_version,
  at_rollback_started, option_state_eq, rollback_failed, rollback_started, rolled_back,
}
use optic_code.Transaction.Mutations.{restore_transaction_file}

abbrev failed : String → Text → Text
failed message reason = bytes message ++ reason

abbrev pub paths_of : List ApplyTransactionFile → List Text
paths_of [] = []
paths_of (entry ∷ rest) = entry.path ∷ paths_of rest

-- the errors and the restored files that the loop has collected
pub record Restored : Type 0 where
  pub errors : List Text
  pub files : List Text

-- `PreparedTransaction::result` and `result_from_manifest`: the fields that the callers give
unfoldable pub result_from_manifest :
    ApplyTransactionManifest
    → Bool
    → ApplyTransactionState
    → Bool
    → Option Bool
    → List Text
    → List Text
    → List Text
    → List Text
    → Option Bool
    → ℕ
    → ApplyTransactionResult
result_from_manifest manifest success final attempted rolled modified restored errors warnings git
      duration =
    record {
      schema_version = apply_transaction_schema_version;
      transaction_id = manifest.transaction_id;
      workspace = manifest.workspace;
      operation_success = success;
      final_state = final;
      rollback_attempted = attempted;
      rollback_success = rolled;
      planned_files = paths_of manifest.files;
      modified_files = modified;
      restored_files = restored;
      errors = errors;
      warnings = warnings;
      duration_ms = duration;
      git_restored = git;
    }

abbrev pub is_false : Option Bool → Bool
is_false (some false) = true
is_false _ = false

abbrev pub failures_of : {A : Type 0} → String → Result Failure A → List Text
failures_of message (ok _) = []
failures_of message (err e) = failed message e.message ∷ []

abbrev pub not_restored : ApplyTransactionFile → Failure → Restored
not_restored entry e = record {
  errors = (bytes "failed to restore " ++ entry.path ++ bytes ": " ++ e.message) ∷ [];
  files = [];
}

abbrev pub interrupted : ApplyTransactionFile → Failure → Restored
interrupted entry e = record {
  errors = failed "rollback restoration interrupted: " e.message ∷ [];
  files = entry.path ∷ [];
}

-- the errors with the verdict on the Git state, unless one of them names it already
abbrev pub with_git_verdict : Option Bool → List Text → List Text
with_git_verdict restored errors =
    if is_false restored && not (any (λ e. contains_text e (bytes "Git state")) errors)
    then errors ++ bytes "Git state after rollback differs from the pre-transaction state" ∷ []
    else errors

module _ (w : World) where
  -- the loop over the files in reverse; `first` holds until one file was restored
  unfoldable pub restore_each : FilePath → Bool → List ApplyTransactionFile → Op Restored
  restore_each workspace first [] = pure (record { errors = []; files = [] })
  restore_each workspace first (entry ∷ rest) = do
    answer ← attempt (restore_transaction_file w workspace entry)
    on_result answer (λ e. pure (not_restored entry e))
        (λ _. do
          fault ← attempt (at_first w first after_first_restore)
          on_result fault (λ e. pure (interrupted entry e))
              (λ _. do
                others ← restore_each workspace false rest
                pure (record others { files = entry.path ∷ others.files })))

  unfoldable pub restore_all : FilePath → List ApplyTransactionFile → Op Restored
  restore_all workspace files = do
    fault ← attempt (check_fault w at_rollback_started)
    on_result fault
        (λ e.
          pure (record { errors = failed "rollback start failed: " e.message ∷ []; files = [] }))
        (λ _. restore_each workspace true (reverse files))

  -- the event at the start, if it is not there from an earlier attempt
  unfoldable pub start_rollback : List Text → Text → Op (List Text)
  start_rollback modified reason = do
    current ← gets (λ s. s.journal.current_state)
    if current == some rollback_started then pure [] else do
      answer ← attempt (
          transition w rollback_started (bytes "automatic or explicit rollback started") modified
            (reason ∷ []) none)
      pure (failures_of "failed to journal rollback start: " answer)

  -- the answer of `verify_git_restored`, or that it could not be had
  unfoldable pub git_after_rollback :
      ApplyTransactionManifest → List Text → Op (List Text × Option Bool × Option GitStateSnapshot)
  git_after_rollback manifest errors = do
    answer ← attempt (verify_git_restored w manifest)
    on_result answer
        (λ e. pure (
          errors ++ failed "failed to verify Git state after rollback: " e.message ∷ [],
          some false,
          none,
        ))
        (λ found. pure (with_git_verdict found.0 errors, found.0, found.1))

  -- the last event, and the result
  unfoldable pub finish_rollback :
      ApplyTransactionManifest
      → List Text
      → Text
      → Bool
      → List Text
      → List Text
      → Option Bool
      → Option GitStateSnapshot
      → Op ApplyTransactionResult
  finish_rollback manifest modified reason operation restored errors git_restored snapshot = do
    let content_ok = is_empty errors && not (is_false git_restored)
    answer ← attempt (
        transition w (if content_ok then rolled_back else rollback_failed)
          (if content_ok
            then bytes "rollback completed and verified"
            else bytes "rollback did not complete cleanly")
          restored (if content_ok then [] else errors) snapshot)
    let all_errors = errors ++ failures_of "failed to journal rollback result: " answer
    let rollback_ok = content_ok && is_empty all_errors
    duration ← gets (λ s. w.elapsed_ms s.tick)
    pure (
        result_from_manifest manifest (operation && rollback_ok)
          (if rollback_ok then rolled_back else rollback_failed) true (some rollback_ok) modified
          restored ((if operation then [] else reason ∷ []) ++ all_errors) [] git_restored duration)

  unfoldable pub rollback_manifest :
      FilePath → ApplyTransactionManifest → List Text → Text → Bool → Op ApplyTransactionResult
  rollback_manifest workspace manifest modified reason operation = do
    started ← start_rollback modified reason
    restored ← restore_all workspace manifest.files
    verdict ← git_after_rollback manifest (started ++ restored.errors)
    finish_rollback manifest modified reason operation restored.files verdict.0 verdict.1 verdict.2
