-- ===== src/Transaction/Prepare.antt =====
-- `prepare_transaction` of crates/opticcode-tools/src/apply_transaction.rs: the mutations are validated
-- and sorted, the workspace is locked, and patch, backups and manifest are written before any target.
use optic_code.FilePath.{FilePath, normal, path_eq}
use optic_code.Prelude.{
  Bool, List, Option, Result, [], err, if◌then◌else◌, is_empty, is_some, length, nat_eq, none, not,
  ok, some, true, ℕ, ◌!=◌, ◌&&◌, ◌++◌, ◌+◌, ◌==◌, ◌∷◌,
}
use optic_code.Text.{Text, bytes, option_text_eq}
use optic_code.Transaction.Directories.{acquire_lock, create_transaction_directory, run_of}
use optic_code.Transaction.Git.{capture_git_for_policy, effective_git_changes}
use optic_code.Transaction.Journal.{transition, write_new_atomic}
use optic_code.Transaction.Machine.{
  Machine, Mode, Node, Op, World, attempt, call, check_fault, context, fingerprint_bytes,
  fingerprint_of, gets, metadata, modify, pure, raise_if, regular, with_kind, ◌>>=◌, ◌>>◌,
}
use optic_code.Transaction.Model.{
  ApplyGitPolicy, ApplyTransactionFile, ApplyTransactionManifest, ApplyTransactionRequest, Content,
  Failure, FileMutation, GitStateSnapshot, after_first_backup, apply_transaction_schema_version,
  git_policy_eq, precondition, prepared, require_clean,
}
use optic_code.Transaction.Mutations.{sync_directory}
use optic_code.Transaction.Sorting.{validate_and_sort_mutations}
use optic_code.Transaction.Targets.{about, canonical, is_dir, portable, read_optional_regular_file}

abbrev length_of : Content → ℕ
length_of none = 0
length_of (some content) = length content

abbrev mode_of : Node → Option Mode
mode_of (regular _ m) = some m
mode_of _ = none

abbrev readonly_of : Option Mode → Option Bool
readonly_of none = none
readonly_of (some m) = some m.readonly

abbrev unix_mode_of : Option Mode → Option ℕ
unix_mode_of none = none
unix_mode_of (some m) = m.unix_mode

abbrev pub mode_found : Result Failure Node → Option Mode
mode_found (ok node) = mode_of node
mode_found (err _) = none

pub record PreparedTransaction : Type 0 where
  pub workspace : FilePath
  pub manifest : ApplyTransactionManifest
  pub mutations : List FileMutation

module _ (w : World) where
  abbrev pub store_artifact : FilePath → Text → Machine → Machine
  store_artifact p content s = record s {
    artifacts = λ q. if q == p then some content else s.artifacts q;
  }

  unfoldable pub write_artifact : FilePath → Text → Op Unit
  write_artifact p content =
      write_new_atomic w (λ s. is_some (s.artifacts p)) (store_artifact p content)

  -- `backups/{index:08}.bin`
  unfoldable pub backup_file : ℕ → FilePath
  backup_file index = normal (bytes "backups") ∷ normal (w.show8 index ++ bytes ".bin") ∷ []

  abbrev pub backup_name : ℕ → Content → Option Text
  backup_name index none = none
  backup_name index (some _) = some (portable (backup_file index))

  -- the record of a file in the manifest
  unfoldable pub file_record : ℕ → FileMutation → Content → Option Mode → ApplyTransactionFile
  file_record index m before mode = record {
    path = portable m.path;
    existed_before = is_some before;
    before_hash = fingerprint_of w before;
    before_bytes = length_of before;
    after_hash = fingerprint_of w m.desired_after;
    after_bytes = length_of m.desired_after;
    backup_path = backup_name index before;
    readonly = readonly_of mode;
    unix_mode = unix_mode_of mode;
  }

  abbrev pub write_backup : ℕ → Content → Op Unit
  write_backup index none = pure tt
  write_backup index (some content) =
      context (bytes "failed to persist transaction backup")
        (write_artifact (backup_file index) content)

  -- the loop that backs every file up
  unfoldable pub back_up : FilePath → ℕ → List FileMutation → Op (List ApplyTransactionFile)
  back_up workspace index [] = pure []
  back_up workspace index (m ∷ rest) = do
    before ← read_optional_regular_file w (workspace ++ m.path)
    raise_if (before != m.expected_before) precondition
        (about "file changed after patch planning or did not match its expected state: " m.path)
    found ← attempt (metadata w (workspace ++ m.path))
    write_backup index before
    (if index == 0 then check_fault w after_first_backup else pure tt)
    others ← back_up workspace (index + 1) rest
    pure (file_record index m before (mode_found found) ∷ others)

  abbrev pub changes_in : Option GitStateSnapshot → ℕ
  changes_in none = 0
  changes_in (some snapshot) = length (effective_git_changes snapshot)

  abbrev not_clean : Text
  not_clean =
      bytes
        "transaction requires a clean Git worktree; found pre-existing changes outside .opticcode"

  -- the preflight before the lock is taken
  unfoldable pub clean_before_lock : ApplyGitPolicy → Op Unit
  clean_before_lock policy = if policy != require_clean then pure tt else do
    preflight ← capture_git_for_policy w policy
    raise_if (changes_in preflight != 0) precondition not_clean

  unfoldable pub resolve_workspace : FilePath → Op FilePath
  resolve_workspace p = do
    workspace ←
        with_kind precondition (about "failed to resolve transaction workspace " p) (canonical w p)
    present ← is_dir w workspace
    raise_if (not present) precondition
        (about "transaction workspace is not a directory: " workspace)
    pure workspace

  -- the three directories' worth of files, from the patch to the manifest
  unfoldable pub write_run :
      ApplyTransactionRequest
      → FilePath
      → List FileMutation
      → Option GitStateSnapshot
      → Text
      → Op ApplyTransactionManifest
  write_run request workspace mutations git_before id = do
    context (bytes "failed to create transaction backups") (call w)
    context (bytes "failed to create transaction events") (call w)
    sync_directory w (run_of workspace id)
    context (bytes "failed to persist transaction patch")
        (write_artifact (normal (bytes "patch.diff") ∷ []) request.patch)
    files ← back_up workspace 0 mutations
    call w
    now ← gets (λ s. w.now_ms s.tick)
    let manifest : ApplyTransactionManifest = record {
      schema_version = apply_transaction_schema_version;
      transaction_id = id;
      workspace = workspace;
      copied_from = request.copied_from;
      created_at_unix_ms = now;
      patch_hash = fingerprint_bytes w request.patch;
      patch_path = bytes "patch.diff";
      files = files;
      validation = record {
        git_policy = request.git_policy;
        git_captured = is_some git_before;
        git_clean = changes_in git_before == 0;
        pre_existing_changes = changes_in git_before;
        expected_contents_verified = true;
      };
      git_before = git_before;
    }
    context (bytes "failed to persist transaction manifest")
        (write_new_atomic w (λ s. is_some s.manifest) (λ s. record s { manifest = some manifest }))
    pure manifest

  abbrev pub fresh_journal : Text → Machine → Machine
  fresh_journal id s = record s {
    journal = record { transaction_id = id; current_state = none; next_sequence = 0 };
  }

  -- behind the preflight: the lock, the Git state under it, and the run directory
  unfoldable pub prepare_locked :
      ApplyTransactionRequest → FilePath → List FileMutation → Op PreparedTransaction
  prepare_locked request workspace mutations = do
    acquire_lock w workspace
    git_before ← capture_git_for_policy w request.git_policy
    raise_if (request.git_policy == require_clean && changes_in git_before != 0) precondition
        not_clean
    id ← create_transaction_directory w workspace request.requested_id
    manifest ← write_run request workspace mutations git_before id
    modify (fresh_journal id)
    transition w prepared (bytes "patch, manifest and rollback backups durably prepared") [] [] none
    pure (record { workspace = workspace; manifest = manifest; mutations = mutations })

  unfoldable pub prepare_transaction : ApplyTransactionRequest → Op PreparedTransaction
  prepare_transaction request = do
    workspace ← resolve_workspace request.workspace
    raise_if (is_empty request.mutations) precondition
        (bytes "transaction must contain at least one file mutation")
    mutations ← validate_and_sort_mutations w workspace request.mutations
    clean_before_lock request.git_policy
    prepare_locked request workspace mutations
