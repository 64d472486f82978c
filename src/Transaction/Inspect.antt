-- ===== src/Transaction/Inspect.antt =====
-- The inspection of a run directory in crates/opticcode-tools/src/apply_transaction.rs:
-- `inspect_run_directory` as a function of what the system calls show of the directory.
use optic_code.FilePath.{FilePath, path_eq}
use optic_code.Prelude.{
  Bool, List, Option, Result, String, [], contains, err, false, if◌then◌else◌, is_empty, is_some,
  length, nat_eq, none, not, ok, some, to_option, true, ℕ, ◌!=◌, ◌&&◌, ◌++◌, ◌+◌, ◌==◌, ◌||◌, ◌∷◌,
}
use optic_code.Text.{Text, bytes, option_text_eq, text_eq}
use optic_code.Transaction.History.{
  EventFile, check_events, differ, is_unfinished, last_state, when,
}
use optic_code.Transaction.Machine.{World, fingerprint_bytes}
use optic_code.Transaction.Model.{
  ApplyTransactionEvent, ApplyTransactionFile, ApplyTransactionManifest, ApplyTransactionState,
  apply_transaction_schema_version, git_policy_eq, require_clean,
}
use optic_code.Transaction.Prepare.{backup_file}
use optic_code.Transaction.Targets.{portable, validate_relative_path}

-- the answer of `fs::symlink_metadata`
pub data Entry : Type 0 where
  absent file_entry directory_entry other_entry : Entry
  unknown : Text → Entry

-- the paths of the entries and the answers to the reads
pub record RunView : Type 0 where
  pub run_entry : Entry
  pub manifest_entry : Entry
  pub manifest_json : Result Text ApplyTransactionManifest
  -- whether the patch is a regular file, and `fingerprint_file` of it
  pub patch_regular : Bool
  pub patch_hash : Option Text
  pub backups_entry : Entry
  -- a backup: whether it is a regular file, and `fs::read` of it
  pub backup_regular : Text → Bool
  pub backup_read : Text → Result Text Text
  pub events_entry : Entry
  -- the listing of the events directory, sorted by path
  pub event_files : Result Text (List EventFile)

-- without `schema_version`, a constant, and `recovery_reasons`, a text about `recoverable`
pub record ApplyTransactionInspection : Type 0 where
  pub transaction_id : Text
  pub valid : Bool
  pub legacy : Bool
  pub manifest : Option ApplyTransactionManifest
  pub events : List ApplyTransactionEvent
  pub final_state : Option ApplyTransactionState
  pub recoverable : Bool
  pub errors : List Text

abbrev pub is_absent : Entry → Bool
is_absent absent = true
is_absent e = false

abbrev pub no_entry : Entry → Bool
no_entry absent = true
no_entry (unknown _) = true
no_entry _ = false

module _ (w : World) (transaction_id : Text) where
  -- the checks on the backup of a file that existed before
  unfoldable pub check_backup : RunView → ApplyTransactionFile → ℕ → List Text
  check_backup view entry index =
      let name = portable (backup_file w index) in
      if entry.backup_path != some name
      then bytes "manifest backup path is missing or unexpected" ∷ []
      else elim entry.before_hash [
        | none ↦ bytes "manifest backup hash is missing" ∷ []
        | some hash ↦
            if not (view.backup_regular name)
            then bytes "manifest backup is a symlink, reparse point, or non-file" ∷ []
            else elim (view.backup_read name) [
              | err message ↦ (bytes "manifest backup cannot be read" ++ message) ∷ []
              | ok content ↦
                  when (length content != entry.before_bytes) "manifest backup size differs"
                  ++ when (fingerprint_bytes w content != hash) "manifest backup BLAKE3 differs"
            ]
      ]

  unfoldable pub check_new_file : ApplyTransactionFile → List Text
  check_new_file entry =
      when
        (is_some entry.before_hash
          || entry.before_bytes != 0
          || is_some entry.backup_path
          || is_some entry.readonly
          || is_some entry.unix_mode)
        "new file contains inconsistent pre-transaction metadata"

  -- the path of a record: its errors, and the portable paths seen so far
  unfoldable pub check_path : List Text → ApplyTransactionFile → List Text × List Text
  check_path seen entry = elim (validate_relative_path (w.parse_path entry.path)) [
    | err e ↦ ((bytes "invalid manifest file path" ++ e.message) ∷ [], seen)
    | ok path ↦
        (when (contains seen (portable path)) "duplicate manifest file path", portable path ∷ seen)
  ]

  -- the loop over the files of the manifest
  unfoldable pub check_files : RunView → List Text → ℕ → List ApplyTransactionFile → List Text
  check_files view seen index [] = []
  check_files view seen index (entry ∷ rest) =
      let path = check_path seen entry in
      path.0
      ++ when (not (is_some entry.after_hash) && entry.after_bytes != 0)
          "deleted file has inconsistent post-apply size"
      ++ (if entry.existed_before then check_backup view entry index else check_new_file entry)
      ++ check_files view path.1 (index + 1) rest

  unfoldable pub validate_manifest_artifacts : RunView → ApplyTransactionManifest → List Text
  validate_manifest_artifacts view manifest =
      let v = manifest.validation in
      when (is_empty manifest.files) "transaction manifest has no planned file"
      ++ when (differ v.git_captured (is_some manifest.git_before))
          "manifest Git capture flag does not match its snapshot"
      ++ when (not v.expected_contents_verified) "manifest did not verify expected file contents"
      ++ when (differ v.git_clean (v.pre_existing_changes == 0))
          "manifest Git cleanliness metadata is inconsistent"
      ++ when (v.git_policy == require_clean && (not v.git_captured || not v.git_clean))
          "clean-Git transaction manifest contains an invalid Git state"
      ++ elim view.backups_entry [
        | directory_entry ↦ check_files view [] 0 manifest.files
        | unknown message ↦
            (bytes "transaction backups directory cannot be inspected" ++ message) ∷ []
        | absent ↦ bytes "transaction backups directory cannot be inspected" ∷ []
        | _ ↦
            bytes "transaction backups directory is a symlink, reparse point, or non-directory" ∷ []
      ]

  -- the checks on a manifest that was read
  unfoldable pub check_manifest : FilePath → RunView → ApplyTransactionManifest → List Text
  check_manifest workspace view manifest =
      when (manifest.schema_version != apply_transaction_schema_version)
        "unsupported transaction schema version"
      ++ when (manifest.transaction_id != transaction_id)
          "manifest transaction id does not match its directory"
      ++ when (manifest.workspace != workspace)
          "manifest workspace does not match inspected workspace"
      ++ (if manifest.patch_path != bytes "patch.diff"
          then bytes "transaction patch path is unexpected" ∷ []
          else when (not view.patch_regular || view.patch_hash != some manifest.patch_hash)
              "transaction patch is missing or its BLAKE3 hash differs")
      ++ validate_manifest_artifacts view manifest

  unfoldable pub invalid_inspection : String → ApplyTransactionInspection
  invalid_inspection message = record {
    transaction_id = transaction_id;
    valid = false;
    legacy = false;
    manifest = none;
    events = [];
    final_state = none;
    recoverable = false;
    errors = bytes message ∷ [];
  }

  -- the answer without a manifest: an old run has a patch and nothing else
  unfoldable pub without_manifest : RunView → ApplyTransactionInspection
  without_manifest view =
      let old = view.patch_regular && no_entry view.backups_entry && no_entry view.events_entry in
      record {
        transaction_id = transaction_id;
        valid = old;
        legacy = old;
        manifest = none;
        events = [];
        final_state = none;
        recoverable = false;
        errors = when (not old) "transaction manifest is missing";
      }

  abbrev pub listed_events :
      Result Text (List EventFile)
      → Option ApplyTransactionManifest
      → List ApplyTransactionEvent × List Text
  listed_events (err message) manifest =
      ([], (bytes "failed to read transaction events" ++ message) ∷ [])
  listed_events (ok files) manifest = check_events w transaction_id manifest none 0 files

  abbrev pub manifest_errors : FilePath → RunView → Result Text ApplyTransactionManifest → List Text
  manifest_errors workspace view (err message) =
      (bytes "invalid transaction manifest" ++ message) ∷ []
  manifest_errors workspace view (ok m) = check_manifest workspace view m

  -- the events directory: the events and the errors
  unfoldable pub inspect_events :
      RunView → Option ApplyTransactionManifest → List ApplyTransactionEvent × List Text
  inspect_events view manifest = elim view.events_entry [
    | directory_entry ↦
        let r = listed_events view.event_files manifest in
        (r.0, r.1 ++ when (is_empty r.0) "transaction has no readable state event")
    | _ ↦ ([], bytes "transaction events directory is missing" ∷ [])
  ]

  unfoldable pub conclude_inspection :
      Option ApplyTransactionManifest
      → List ApplyTransactionEvent
      → List Text
      → ApplyTransactionInspection
  conclude_inspection manifest events errors =
      let final = last_state none events in
      record {
        transaction_id = transaction_id;
        valid = is_empty errors;
        legacy = false;
        manifest = manifest;
        events = events;
        final_state = final;
        recoverable = is_empty errors && is_unfinished final;
        errors = errors;
      }

  -- behind the look at the manifest file
  unfoldable pub inspect_manifest : FilePath → RunView → ApplyTransactionInspection
  inspect_manifest workspace view =
      let manifest = to_option view.manifest_json in
      let found = manifest_errors workspace view view.manifest_json in
      let r = inspect_events view manifest in conclude_inspection manifest r.0 (found ++ r.1)

  -- the looks at the run directory and at the manifest file
  unfoldable pub inspect_entries : FilePath → RunView → Entry → Entry → ApplyTransactionInspection
  inspect_entries workspace view directory_entry absent = without_manifest view
  inspect_entries workspace view directory_entry file_entry = inspect_manifest workspace view
  inspect_entries workspace view directory_entry (unknown message) =
      invalid_inspection "failed to inspect transaction manifest"
  inspect_entries workspace view directory_entry directory_entry =
      invalid_inspection "transaction manifest is a symlink, reparse point, or non-file"
  inspect_entries workspace view directory_entry other_entry =
      invalid_inspection "transaction manifest is a symlink, reparse point, or non-file"
  inspect_entries workspace view absent m =
      invalid_inspection "failed to inspect transaction directory"
  inspect_entries workspace view (unknown message) m =
      invalid_inspection "failed to inspect transaction directory"
  inspect_entries workspace view file_entry m =
      invalid_inspection "transaction directory is a symlink, reparse point, or non-directory"
  inspect_entries workspace view other_entry m =
      invalid_inspection "transaction directory is a symlink, reparse point, or non-directory"

  unfoldable pub inspect_run_directory : FilePath → RunView → ApplyTransactionInspection
  inspect_run_directory workspace view =
      inspect_entries workspace view view.run_entry view.manifest_entry
