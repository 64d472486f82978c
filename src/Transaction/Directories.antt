-- ===== src/Transaction/Directories.antt =====
-- The directories of a transaction in crates/opticcode-tools/src/apply_transaction.rs: the metadata root,
-- the lock file and the run directory with its identifier.
use optic_code.FilePath
use optic_code.FilePath.{FilePath, normal, parent}
use optic_code.Prelude.{
  Bool, Option, Result, [], all, err, false, if◌then◌else◌, is_empty, length, ltb, nat_eq, none,
  not, ok, some, suc, true, zero, ℕ, ◌++◌, ◌==◌, ◌||◌, ◌∷◌,
}
use optic_code.Text.{Text, bytes, is_ascii_alphanumeric}
use optic_code.Transaction.Machine.{
  Node, Op, World, attempt, call, context, directory, gets, lift, link, missing, pure, put_node,
  raise, raise_if, regular, special, symlink_metadata, with_kind, ◌>>=◌, ◌>>◌,
}
use optic_code.Transaction.Model.{
  Failure, collision, invalid_transaction, io, precondition, transaction_error,
}
use optic_code.Transaction.Mutations.{sync_directory}
use optic_code.Transaction.Targets.{about, canonical, metadata_name}
use optic_code.Worktree.{resolved}

abbrev pub opticcode_dir : FilePath → FilePath
opticcode_dir workspace = workspace ++ normal metadata_name ∷ []

abbrev pub runs_dir : FilePath → FilePath
runs_dir workspace = opticcode_dir workspace ++ normal (bytes "runs") ∷ []

-- a character of a transaction identifier
abbrev is_id_char : ℕ → Bool
is_id_char c = is_ascii_alphanumeric c || (c == b'-' || c == b'_')

unfoldable pub validate_transaction_id : Text → Result Failure Unit
validate_transaction_id id =
    if is_empty id
    then err (transaction_error invalid_transaction (bytes "transaction id is empty"))
    else if ltb 160 (length id)
    then err (transaction_error invalid_transaction (bytes "transaction id is too long"))
    else if not (all is_id_char id)
    then err (
        transaction_error invalid_transaction
          (bytes "transaction id contains invalid characters: " ++ id))
    else ok tt

abbrev pub made : Bool → Op Unit
made true = pure tt
made false = lift (err (record { error_kind = none; message = bytes "already exists" }))

abbrev pub expect_directory : FilePath → Node → Op Unit
expect_directory p directory = pure tt
expect_directory p missing = raise precondition (about "not a regular directory: " p)
expect_directory p link = raise precondition (about "not a regular directory: " p)
expect_directory p special = raise precondition (about "not a regular directory: " p)
expect_directory p (regular _ _) = raise precondition (about "not a regular directory: " p)

-- the check of the lock file's place before it is opened; a failed look is no refusal
abbrev pub check_lock : FilePath → Result Failure Node → Op Unit
check_lock p (err _) = pure tt
check_lock p (ok missing) = pure tt
check_lock p (ok (regular _ _)) = pure tt
check_lock p (ok directory) =
    raise precondition (about "transaction lock is not a regular file: " p)
check_lock p (ok link) = raise precondition (about "transaction lock is not a regular file: " p)
check_lock p (ok special) = raise precondition (about "transaction lock is not a regular file: " p)

abbrev pub run_of : FilePath → Text → FilePath
run_of workspace id = runs_dir workspace ++ normal id ∷ []

abbrev pub lock_of : FilePath → FilePath
lock_of workspace = opticcode_dir workspace ++ normal (bytes "apply.lock") ∷ []

abbrev pub or_collision : Text → Option Text → Op Text
or_collision id none = raise collision (bytes "transaction already exists: " ++ id)
or_collision id (some fresh) = pure fresh

module _ (w : World) where
  abbrev pub created : FilePath → Node → Op Bool
  created p missing = put_node p directory >> pure true
  created p n = pure false

  -- `fs::create_dir`: whether the directory is new
  unfoldable pub create_dir : FilePath → Op Bool
  create_dir p = do call w; node ← gets (λ s. s.tree p); created p node

  unfoldable pub verify_workspace_directory : FilePath → FilePath → Op Unit
  verify_workspace_directory workspace p = do
    node ← context (about "failed to inspect " p) (symlink_metadata w p)
    expect_directory p node
    resolved ← context (about "failed to resolve " p) (canonical w p)
    raise_if (not (FilePath.starts_with resolved workspace)) precondition
        (about "escapes workspace: " p)
    sync_directory w p

  -- `fs::create_dir` and the sync of the parent
  unfoldable pub create_synced : FilePath → FilePath → Op Unit
  create_synced parent p = do
    new ← context (about "failed to create " p) (create_dir p)
    made new
    sync_directory w parent

  abbrev pub create_missing : FilePath → FilePath → Node → Op Unit
  create_missing parent p missing = create_synced parent p
  create_missing parent p n = pure tt

  unfoldable pub ensure_workspace_directory : FilePath → FilePath → FilePath → Op Unit
  ensure_workspace_directory workspace parent p = do
    node ← context (about "failed to inspect " p) (symlink_metadata w p)
    create_missing parent p node
    verify_workspace_directory workspace p

  abbrev pub check_root : FilePath → FilePath → Node → Op Unit
  check_root workspace root missing = create_synced workspace root
  check_root workspace root n = expect_directory root n

  -- the metadata root of `WorkspaceTransactionLock::acquire`
  unfoldable pub metadata_root : FilePath → Op Unit
  metadata_root workspace = do
    let root = opticcode_dir workspace
    node ←
        context (about "failed to inspect transaction metadata root: " root)
          (symlink_metadata w root)
    check_root workspace root node
    resolved ←
        context (about "failed to resolve transaction metadata root: " root) (canonical w root)
    raise_if (not (FilePath.starts_with resolved workspace)) precondition
        (about "transaction metadata root escapes workspace: " root)

  -- opening the lock file creates it where nothing is
  abbrev pub create_at : FilePath → Node → Op Unit
  create_at p missing = put_node p (regular [] w.new_mode)
  create_at p directory =
      lift (err (record { error_kind = none; message = bytes "is a directory" }))
  create_at p n = pure tt

  -- a link is followed, so that a dangling one creates the file where it leads
  unfoldable pub open_link : FilePath → Op Unit
  open_link p = do
    target ← gets (λ s. w.link_end s.tree p)
    node ← gets (λ s. w.follow s.tree p)
    create_at target node

  abbrev pub open_lock : FilePath → Node → Op Unit
  open_lock p missing = put_node p (regular [] w.new_mode)
  open_lock p link = open_link p
  open_lock p directory =
      lift (err (record { error_kind = none; message = bytes "is a directory" }))
  open_lock p n = pure tt

  unfoldable pub acquire_lock : FilePath → Op Unit
  acquire_lock workspace = do
    metadata_root workspace
    look ← attempt (symlink_metadata w (lock_of workspace))
    check_lock (lock_of workspace) look
    context (about "failed to open transaction lock: " (lock_of workspace)) (call w)
    now ← gets (λ s. s.tree (lock_of workspace))
    open_lock (lock_of workspace) now
    with_kind io (about "failed to acquire transaction lock " (lock_of workspace)) (call w)
    raise_if (not w.lock_free) precondition
        (about "workspace already has an active apply or recovery: " workspace)
    context (about "failed to sync transaction lock: " (lock_of workspace)) (call w)
    sync_directory w (opticcode_dir workspace)

  abbrev pub enter_new : FilePath → Text → Bool → Op (Option Text)
  enter_new workspace id false = pure none
  enter_new workspace id true = do
    sync_directory w (runs_dir workspace)
    verify_workspace_directory workspace (run_of workspace id)
    pure (some id)

  -- a run directory of this name: none if it is taken
  unfoldable pub claim_id : FilePath → Text → Op (Option Text)
  claim_id workspace id = do
    new ←
        context (bytes "failed to create transaction directory") (create_dir (run_of workspace id))
    enter_new workspace id new

  abbrev pub or_next : Op Text → Option Text → Op Text
  or_next next none = next
  or_next next (some id) = pure id

  -- the `for _ in 0..100` over fresh identifiers
  unfoldable pub allocate_id : ℕ → FilePath → Op Text
  allocate_id zero workspace =
      raise collision (bytes "could not allocate a unique transaction identifier")
  allocate_id (suc rounds) workspace = do
    n ← gets (λ s. s.tick)
    claim ← claim_id workspace (bytes "apply-" ++ w.fresh_part n)
    or_next (allocate_id rounds workspace) claim

  abbrev pub choose_id : FilePath → Option Text → Op Text
  choose_id workspace none = allocate_id 100 workspace
  choose_id workspace (some id) = do
    lift (validate_transaction_id id)
    claim ← claim_id workspace id
    or_collision id claim

  unfoldable pub create_transaction_directory : FilePath → Option Text → Op Text
  create_transaction_directory workspace requested = do
    ensure_workspace_directory workspace (opticcode_dir workspace) (runs_dir workspace)
    choose_id workspace requested
