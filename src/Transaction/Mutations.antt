-- ===== src/Transaction/Mutations.antt =====
-- The writes to a target of crates/opticcode-tools/src/apply_transaction.rs: the atomic replacement, the
-- mutation of a file, and its restoration from the backup.
use optic_code.FilePath.{FilePath}
use optic_code.Prelude.{
  Bool, List, Option, String, [], err, false, if◌then◌else◌, is_some, none, some, true, ℕ, ◌!=◌,
  ◌++◌, ◌==◌, ◌∷◌,
}
use optic_code.Text.{Text, bytes, option_text_eq, text_eq}
use optic_code.Transaction.Machine.{
  Mode, Node, Op, StagingFile, World, attempt, call, check_fault, context, directory,
  fingerprint_bytes, fingerprint_of, gets, lift, metadata, missing, modify, on_result, pure,
  put_node, raise, raise_if, regular, staging_path, unstaged, ◌>>=◌, ◌>>◌,
}
use optic_code.Transaction.Model.{
  ApplyTransactionFile, Content, Failure, FileMutation, after_target_staged, invalid_transaction,
  io, precondition,
}
use optic_code.Transaction.Targets.{
  about, parent_below, read_validated_target, validate_relative_path, validate_target_location,
}

abbrev pub set_readonly : Bool → Mode → Mode
set_readonly b m = record m { readonly = b }

abbrev pub set_unix_mode : Option ℕ → Mode → Mode
set_unix_mode none m = m
set_unix_mode (some u) m = record m { unix_mode = some u }

-- `fs::set_permissions` on a file; the modes of other entries are not kept
abbrev pub with_mode : (Mode → Mode) → Node → Node
with_mode f (regular content m) = regular content (f m)
with_mode f n = n

abbrev pub not_a_file : Failure
not_a_file = record { error_kind = none; message = bytes "no such file" }

-- what the system answers at a missing entry, and at a directory
abbrev pub present_node : Node → Op Unit
present_node missing = lift (err not_a_file)
present_node n = pure tt

abbrev pub not_a_directory : Node → Op Unit
not_a_directory directory =
    lift (err (record { error_kind = none; message = bytes "is a directory" }))
not_a_directory n = pure tt

abbrev pub or_no_file : Option Text → Op Text
or_no_file none = lift (err not_a_file)
or_no_file (some content) = pure content

module _ (w : World) where
  unfoldable pub sync_directory : FilePath → Op Unit
  sync_directory p = context (about "failed to sync directory: " p) (call w)

  -- `restore_permissions` behind its `let Some(readonly)`
  unfoldable pub set_permissions : FilePath → FilePath → Bool → Option ℕ → Op Unit
  set_permissions workspace relative readonly unix_mode = do
    validate_target_location w workspace relative
    let path = workspace ++ relative
    found ← metadata w path
    present_node found
    context (about "failed to restore permissions: " path) (call w)
    node ← gets (λ s. s.tree path)
    put_node path (with_mode (λ m. set_unix_mode unix_mode (set_readonly readonly m)) node)

  abbrev pub maybe_set : FilePath → FilePath → Option ℕ → Option Bool → Op Unit
  maybe_set workspace relative unix_mode none = pure tt
  maybe_set workspace relative unix_mode (some readonly) =
      set_permissions workspace relative readonly unix_mode

  unfoldable pub restore_permissions : FilePath → FilePath → ApplyTransactionFile → Op Unit
  restore_permissions workspace relative entry =
      maybe_set workspace relative entry.unix_mode entry.readonly

  -- `fs::rename` of the staged file onto the target
  unfoldable pub publish : FilePath → Text → Op Unit
  publish path content = do
    call w
    node ← gets (λ s. s.tree path)
    not_a_directory node
    put_node path (regular content w.new_mode)

  -- `fs::remove_file`
  unfoldable pub remove_file : FilePath → Op Unit
  remove_file path = do
    call w
    node ← gets (λ s. s.tree path)
    present_node node
    not_a_directory node
    put_node path missing

  abbrev pub staged_fault : Bool → Op Unit
  staged_fault true = check_fault w after_target_staged
  staged_fault false = pure tt

  -- `write_synced_file`: the file is created, and then it is written, flushed and synced
  unfoldable pub write_synced_file : StagingFile → Op Unit
  write_synced_file temp = do call w; modify (λ s. record s { staging = temp ∷ s.staging }); call w

  abbrev pub unstage : StagingFile → Op Unit
  unstage temp = modify (λ s. record s { staging = unstaged (staging_path temp) s.staging })

  -- `let _ = fs::remove_file(&temp)`
  unfoldable pub discard : StagingFile → Op Unit
  discard temp = attempt (call w) >>= λ r. on_result r (λ e. pure tt) (λ _. unstage temp)

  -- an error that discards the staged file first
  unfoldable pub or_discard : StagingFile → Op Unit → Op Unit
  unfolding discard
  or_discard temp m = attempt m >>= λ r. on_result r (λ e. discard temp >> lift (err e)) pure

  -- from the staged file to the target
  unfoldable pub replace_staged : FilePath → FilePath → Text → Content → Bool → Op Unit
  replace_staged workspace relative content expected_current staged_faults = do
    staged_fault staged_faults
    current ← read_validated_target w workspace relative
    raise_if (current != expected_current) precondition
        (about "concurrent file change detected after staging temporary content: " relative)
    context (about "failed to replace " (workspace ++ relative))
        (publish (workspace ++ relative) content)

  unfoldable pub atomic_replace_bytes_checked :
      FilePath → FilePath → Text → Content → Bool → Op Unit
  atomic_replace_bytes_checked workspace relative content expected_current staged_faults = do
    validate_target_location w workspace relative
    n ← gets (λ s. s.tick)
    let temp : StagingFile = record {
      parent = parent_below workspace relative;
      unique = w.fresh_part n;
    }
    write_synced_file temp
    or_discard temp (replace_staged workspace relative content expected_current staged_faults)
    unstage temp
    sync_directory (parent_below workspace relative)

  -- the branch of `apply_mutation` that writes
  unfoldable pub write_target : FilePath → FileMutation → Text → ApplyTransactionFile → Op Unit
  write_target workspace mutation content entry = do
    context (about "failed to atomically write target file: " (workspace ++ mutation.path))
        (atomic_replace_bytes_checked workspace mutation.path content mutation.expected_before true)
    restore_permissions workspace mutation.path entry
    actual ← read_validated_target w workspace mutation.path
    raise_if (actual != some content) io
        (about "target verification failed after write: " (workspace ++ mutation.path))

  -- the branch that deletes
  unfoldable pub delete_target : FilePath → FileMutation → Op Unit
  delete_target workspace mutation = do
    latest ← read_validated_target w workspace mutation.path
    raise_if (latest != mutation.expected_before) precondition
        (about "concurrent file change detected immediately before delete: " mutation.path)
    context (about "failed to delete target file: " (workspace ++ mutation.path))
        (remove_file (workspace ++ mutation.path))
    sync_directory (parent_below workspace mutation.path)
    remaining ← read_validated_target w workspace mutation.path
    raise_if (is_some remaining) io
        (about "delete target still exists: " (workspace ++ mutation.path))

  abbrev pub write_or_delete : FilePath → FileMutation → ApplyTransactionFile → Content → Op Unit
  write_or_delete workspace mutation entry none = delete_target workspace mutation
  write_or_delete workspace mutation entry (some content) =
      write_target workspace mutation content entry

  unfoldable pub apply_mutation : FilePath → FileMutation → ApplyTransactionFile → Op Unit
  apply_mutation workspace mutation entry = do
    current ← read_validated_target w workspace mutation.path
    raise_if (current != mutation.expected_before) precondition
        (about "concurrent file change detected immediately before apply: " mutation.path)
    write_or_delete workspace mutation entry mutation.desired_after

  -- `fs::read` of a file of the run directory
  unfoldable pub read_artifact : FilePath → Op Text
  read_artifact path = do call w; content ← gets (λ s. s.artifacts path); or_no_file content

  abbrev pub about_text : String → Text → Text
  about_text message t = bytes message ++ t

  abbrev pub or_raise : Option Text → Text → Op Text
  or_raise (some t) message = pure t
  or_raise none message = raise invalid_transaction message

  -- the branch of `restore_transaction_file` for a file that existed before: the backup, checked
  -- against its fingerprint, replaces the file
  unfoldable pub write_back :
      FilePath → FilePath → ApplyTransactionFile → Content → Text → Text → Op Unit
  write_back workspace relative entry current content expected_hash = do
    raise_if (fingerprint_bytes w content != expected_hash) invalid_transaction
        (about_text "backup hash mismatch for " entry.path)
    context (about "failed to restore target: " (workspace ++ relative))
        (atomic_replace_bytes_checked workspace relative content current false)
    restore_permissions workspace relative entry
    restored ← read_validated_target w workspace relative
    raise_if (fingerprint_of w restored != some expected_hash) io
        (about_text "restored file hash mismatch for " entry.path)

  unfoldable pub restore_backup : FilePath → FilePath → ApplyTransactionFile → Content → Op Unit
  restore_backup workspace relative entry current = do
    spelled ← or_raise entry.backup_path (about_text "backup path is missing for " entry.path)
    backup ← lift (validate_relative_path (w.parse_path spelled))
    content ← context (about "failed to read backup: " backup) (read_artifact backup)
    expected_hash ← or_raise entry.before_hash (about_text "backup hash is missing for " entry.path)
    write_back workspace relative entry current content expected_hash

  -- the branch for a file that the transaction created
  unfoldable pub remove_created : FilePath → FilePath → ApplyTransactionFile → Content → Op Unit
  remove_created workspace relative entry current = do
    latest ← read_validated_target w workspace relative
    raise_if (latest != current) precondition (
        about_text "refusing to remove a transaction-created file changed concurrently: "
          entry.path)
    context (about "failed to remove transaction-created file: " (workspace ++ relative))
        (remove_file (workspace ++ relative))
    sync_directory (parent_below workspace relative)

  -- behind the comparison with the content that the transaction left
  unfoldable pub restore_left : FilePath → FilePath → ApplyTransactionFile → Content → Op Unit
  restore_left workspace relative entry current =
      if entry.existed_before
      then restore_backup workspace relative entry current
      else if is_some current
      then remove_created workspace relative entry current
      else pure tt

  -- behind the comparison with the content before the transaction
  unfoldable pub restore_changed : FilePath → FilePath → ApplyTransactionFile → Content → Op Unit
  restore_changed workspace relative entry current = do
    raise_if (fingerprint_of w current != entry.after_hash) precondition
        (about_text "refusing to overwrite a file changed outside the transaction: " entry.path)
    restore_left workspace relative entry current

  unfoldable pub restore_transaction_file : FilePath → ApplyTransactionFile → Op Unit
  restore_transaction_file workspace entry = do
    relative ← lift (validate_relative_path (w.parse_path entry.path))
    current ← read_validated_target w workspace relative
    if fingerprint_of w current == entry.before_hash
        then (if entry.existed_before
            then restore_permissions workspace relative entry
            else pure tt)
        else restore_changed workspace relative entry current

  unfoldable pub verify_mutations_applied : FilePath → List FileMutation → Op Unit
  verify_mutations_applied workspace [] = pure tt
  verify_mutations_applied workspace (m ∷ rest) = do
    current ← read_validated_target w workspace m.path
    raise_if (current != m.desired_after) precondition
        (about "transaction target changed before finalization: " m.path)
    verify_mutations_applied workspace rest
