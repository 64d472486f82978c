-- ===== src/Transaction/Recover.antt =====
-- `rollback_apply_transaction` and `recover_apply_transaction` of
-- crates/opticcode-tools/src/apply_transaction.rs, where `observe` is what the inspection finds in the
-- run directory.
use optic_code.FilePath.{FilePath}
use optic_code.Prelude.{
  Bool, List, Option, [], err, false, if◌then◌else◌, length, ltb, none, not, option_bool_eq,
  option_nat_eq, some, true, ℕ, ◌!=◌, ◌&&◌, ◌++◌, ◌==◌, ◌∷◌,
}
use optic_code.Text.{Text, bytes, contains_text, option_text_eq}
use optic_code.Transaction.Directories.{acquire_lock, validate_transaction_id}
use optic_code.Transaction.Git.{verify_git_restored}
use optic_code.Transaction.Inspect.{
  ApplyTransactionInspection, RunView, inspect_run_directory, is_absent,
}
use optic_code.Transaction.Journal.{u32_max}
use optic_code.Transaction.Machine.{
  Machine, Node, Op, World, call, fingerprint_of, gets, lift, missing, modify, pure, raise,
  raise_if, regular, symlink_metadata, with_kind, ◌>>=◌, ◌>>◌,
}
use optic_code.Transaction.Model.{
  ApplyTransactionFile, ApplyTransactionManifest, ApplyTransactionResult, ApplyTransactionState,
  committed, invalid_transaction, precondition, rolled_back, state_eq,
}
use optic_code.Transaction.Rollback.{is_false, paths_of, result_from_manifest, rollback_manifest}
use optic_code.Transaction.Targets.{about, canonical, read_validated_target, validate_relative_path}

abbrev pub or_invalid : {A : Type 0} → Text → Option A → Op A
or_invalid message none = raise invalid_transaction message
or_invalid message (some a) = pure a

abbrev pub mode_matches : ApplyTransactionFile → Node → Bool
mode_matches entry (regular content m) =
    entry.readonly == some m.readonly && entry.unix_mode == m.unix_mode
mode_matches entry n = false

abbrev pub expect_present : FilePath → Node → Op Unit
expect_present p missing =
    lift (err (record { error_kind = none; message = about "no such file: " p }))
expect_present p n = pure tt

module _ (w : World) where
  -- whether the mode of a file that existed before is the recorded one
  unfoldable pub mode_restored : FilePath → ApplyTransactionFile → Op Bool
  mode_restored path entry = if not entry.existed_before then pure true else do
    node ← symlink_metadata w path
    expect_present path node
    pure (mode_matches entry node)

  unfoldable pub file_restored : FilePath → ApplyTransactionFile → Op Bool
  file_restored workspace entry = do
    relative ← lift (validate_relative_path (w.parse_path entry.path))
    current ← read_validated_target w workspace relative
    if fingerprint_of w current != entry.before_hash
        then pure false
        else mode_restored (workspace ++ relative) entry

  abbrev pub and_rest : Op Bool → Bool → Op Bool
  and_rest rest false = pure false
  and_rest rest true = rest

  unfoldable pub verify_manifest_files_restored : FilePath → List ApplyTransactionFile → Op Bool
  verify_manifest_files_restored workspace [] = pure true
  verify_manifest_files_restored workspace (entry ∷ rest) = do
    same ← file_restored workspace entry
    and_rest (verify_manifest_files_restored workspace rest) same

  -- a second rollback: the files and the Git state must still be those of the first
  unfoldable pub already_rolled_back :
      FilePath → ApplyTransactionManifest → Op ApplyTransactionResult
  already_rolled_back workspace manifest = do
    restored ← verify_manifest_files_restored workspace manifest.files
    raise_if (not restored) precondition
        (bytes "transaction was rolled back, but a managed file changed afterwards")
    git ← verify_git_restored w manifest
    raise_if (is_false git.0) precondition
        (bytes "transaction was rolled back, but Git state changed afterwards")
    pure (
        result_from_manifest manifest true rolled_back false (some true) []
          (paths_of manifest.files) [] (bytes "transaction was already rolled back" ∷ []) git.0 0)

  unfoldable pub resume_journal : Text → ApplyTransactionState → ℕ → Op Unit
  resume_journal id final n = modify (λ s. record s {
    journal = record { transaction_id = id; current_state = some final; next_sequence = n };
  })

  module _ (observe : Machine → RunView) where
    -- one call stands for the reads of the run directory
    unfoldable pub inspect_apply_transaction : FilePath → Text → Op ApplyTransactionInspection
    inspect_apply_transaction p id = do
      lift (validate_transaction_id id)
      workspace ←
          with_kind invalid_transaction (bytes "failed to resolve transaction workspace")
            (canonical w p)
      call w
      view ← gets observe
      raise_if (is_absent view.run_entry) invalid_transaction
          (bytes "transaction not found: " ++ id)
      pure (inspect_run_directory w id workspace view)

    -- behind the inspection
    unfoldable pub roll_back_from :
        FilePath
        → Text
        → Text
        → ApplyTransactionManifest
        → ApplyTransactionState
        → ℕ
        → Op ApplyTransactionResult
    roll_back_from workspace id reason manifest final n =
        if final == rolled_back then already_rolled_back workspace manifest else do
          raise_if (final == committed && contains_text reason (bytes "recovery")) precondition
              (bytes "committed transaction is not incomplete; use explicit apply --undo")
          raise_if (ltb u32_max n) invalid_transaction (bytes "too many transaction events")
          resume_journal id final n
          rollback_manifest w workspace manifest [] reason true

    unfoldable pub roll_back_inspected :
        FilePath → Text → Text → ApplyTransactionInspection → Op ApplyTransactionResult
    roll_back_inspected workspace id reason inspection = do
      raise_if inspection.legacy invalid_transaction
          (bytes "legacy apply run requires reverse-patch undo")
      raise_if (not inspection.valid) invalid_transaction (bytes "transaction is invalid")
      manifest ← or_invalid (bytes "transaction manifest is unavailable") inspection.manifest
      final ← or_invalid (bytes "transaction has no state event") inspection.final_state
      roll_back_from workspace id reason manifest final (length inspection.events)

    -- `rollback_apply_transaction_with_faults`; an explicit rollback and a recovery differ in the reason
    unfoldable pub rollback_apply_transaction : FilePath → Text → Text → Op ApplyTransactionResult
    rollback_apply_transaction p id reason = do
      lift (validate_transaction_id id)
      workspace ←
          with_kind invalid_transaction (bytes "failed to resolve transaction workspace")
            (canonical w p)
      acquire_lock w workspace
      inspection ← inspect_apply_transaction workspace id
      roll_back_inspected workspace id reason inspection
