-- ===== src/Worktree.antt =====
-- The worktrees, leases and Git boundaries of crates/opticcode-policy/src/engine.rs, and the scopes
-- that a read or a write may lie in.
use optic_code.FilePath
use optic_code.FilePath.{
  FilePath, file_name, is_absolute, join, normal, option_path_eq, parent, path_eq,
}
use optic_code.Host.{Host, Metadata, WorktreeLeaseWire, metadata_is_link_or_reparse}
use optic_code.Model.{ActiveWorktree, PolicyRequest}
use optic_code.Model.Actions.{TransactionAction}
use optic_code.Paths.{Checked, PathSafetyError, inspect_root}
use optic_code.Prelude.{
  Bool, Option, String, [], and_then, fail_if, if◌then◌else◌, ltb, map_err, nat_eq, none, not, ok,
  ok_or, option_bool_eq, some, to_option, true, ℕ, ◌!=◌, ◌*◌, ◌++◌, ◌==◌, ◌>>=◌, ◌>>◌, ◌||◌, ◌∷◌,
}
use optic_code.Text.{Text, bytes, option_text_eq, strip_prefix, text_eq, trim}
use optic_code.Validate.{
  require_working_tree_digest, validate_git_oid, validate_hash_value, validate_identifier_value,
  validate_worktree_run_id,
}

abbrev fault : String → String → PathSafetyError
fault rule message = record { rule_id = rule; message = bytes message }

abbrev max_lease_bytes : ℕ
max_lease_bytes = 64 * 1024

abbrev max_git_file_bytes : ℕ
max_git_file_bytes = 8 * 1024

-- A text as a path of one component.
abbrev segment : Text → FilePath
segment t = normal t ∷ []

-- a link, a directory, or a file beyond a bound
abbrev unbounded_file : Metadata → ℕ → Bool
unbounded_file m max = not m.is_file || metadata_is_link_or_reparse m || ltb max m.len

abbrev absolute_below : FilePath → FilePath → FilePath
absolute_below base p = if is_absolute p then p else join base p

module _ (host : Host) where
  unfoldable pub controlled_worktree_storage : Checked FilePath
  controlled_worktree_storage =
      inspect_root host (join host.temp_dir (segment (bytes "opticcode-worktrees")))

  -- `fs::canonicalize(p).ok()`
  abbrev pub resolved : FilePath → Option FilePath
  resolved p = to_option (host.canonicalize p)

  abbrev lease_mismatch :
      WorktreeLeaseWire → ActiveWorktree → FilePath → FilePath → Text → Text → Bool
  lease_mismatch lease descriptor root workspace_root workspace_id request_id =
      lease.schema_version != 1
      || lease.run_id != descriptor.run_id
      || resolved lease.source_git_root != some workspace_root
      || resolved lease.worktree_path != some root
      || lease.source_commit != descriptor.base_head
      || lease.owner_workspace_id != workspace_id
      || lease.owner_request_id != request_id

  unfoldable pub validate_worktree_lease :
      FilePath → ActiveWorktree → FilePath → FilePath → Text → Text → Checked Unit
  validate_worktree_lease storage descriptor root workspace_root workspace_id request_id = do
    let lease_path =
        join (join storage (segment (bytes "leases")))
          (host.parse_path (descriptor.run_id ++ bytes ".json"))
    metadata ←
        map_err (λ _. fault "worktree.lease_missing" "active worktree has no runtime lease")
          (host.symlink_metadata lease_path)
    fail_if (unbounded_file metadata max_lease_bytes)
        (fault "worktree.lease_invalid" "active worktree lease is not a bounded regular file")
    contents ←
        map_err (λ _. fault "worktree.lease_invalid" "active worktree lease cannot be read")
          (host.read lease_path)
    lease ←
        map_err (λ _. fault "worktree.lease_invalid" "active worktree lease schema is invalid")
          (host.parse_lease contents)
    fail_if (lease_mismatch lease descriptor root workspace_root workspace_id request_id)
        (fault "worktree.lease_mismatch" "active worktree does not match its runtime lease")

  -- the gitdir that the `.git` file of a worktree names
  unfoldable pub gitdir_of : FilePath → Checked FilePath
  gitdir_of root = do
    let git_file = join root (segment (bytes ".git"))
    metadata ←
        map_err
          (λ _.
            fault "git.worktree_file_missing"
              "active worktree is missing its .git indirection file")
          (host.symlink_metadata git_file)
    fail_if (unbounded_file metadata max_git_file_bytes)
        (fault "git.worktree_file_invalid" "worktree .git indirection is unsafe")
    content ←
        map_err (λ _. fault "git.worktree_file_invalid" "worktree .git indirection cannot be read")
          (host.read git_file)
    spelled ←
        ok_or (fault "git.worktree_file_invalid" "worktree .git indirection has an invalid format")
          (strip_prefix (trim content) (bytes "gitdir:"))
    map_err (λ _. fault "git.worktree_gitdir_invalid" "worktree gitdir cannot be resolved")
        (host.canonicalize (absolute_below root (host.parse_path (trim spelled))))

  -- the `commondir` file of a gitdir names the declared common directory
  unfoldable pub commondir_checked : FilePath → FilePath → Checked Unit
  commondir_checked git_dir common_dir = do
    let commondir_file = join git_dir (segment (bytes "commondir"))
    metadata ←
        map_err (λ _. fault "git.commondir_invalid" "worktree gitdir is missing its commondir file")
          (host.symlink_metadata commondir_file)
    fail_if (unbounded_file metadata max_git_file_bytes)
        (fault "git.commondir_invalid" "worktree commondir indirection is unsafe")
    value ←
        map_err (λ _. fault "git.commondir_invalid" "worktree commondir indirection cannot be read")
          (host.read commondir_file)
    fail_if (resolved (absolute_below git_dir (host.parse_path (trim value))) != some common_dir) (
        fault "git.commondir_invalid"
          "worktree commondir file differs from the declared Git boundary")

  unfoldable pub validate_git_file : FilePath → ActiveWorktree → Checked Unit
  validate_git_file root descriptor = do
    git_dir ← gitdir_of root
    expected_git_dir ←
        map_err
          (λ _. fault "git.worktree_gitdir_invalid" "declared worktree gitdir cannot be resolved")
          (host.canonicalize descriptor.git_dir)
    common_dir ←
        map_err
          (λ _. fault "git.commondir_invalid" "declared Git common directory cannot be resolved")
          (host.canonicalize descriptor.common_dir)
    fail_if
        (git_dir != expected_git_dir
          || git_dir == common_dir
          || not (FilePath.starts_with git_dir common_dir))
        (fault "git.boundary_mismatch"
          "worktree gitdir and common Git directory boundaries do not match")
    commondir_checked git_dir common_dir

  -- `validate_active_descriptor` behind its `let Some(descriptor)`
  unfoldable pub active_root : ActiveWorktree → FilePath → Text → Text → Checked FilePath
  active_root descriptor workspace_root workspace_id request_id = do
    validate_worktree_run_id descriptor.run_id
    validate_identifier_value descriptor.owner_workspace_id "worktree owner workspace ID"
    validate_identifier_value descriptor.owner_request_id "worktree owner request ID"
    validate_git_oid descriptor.base_head "worktree base HEAD"
    fail_if
        (descriptor.owner_workspace_id != workspace_id || descriptor.owner_request_id != request_id)
        (fault "worktree.owner_mismatch"
          "active worktree does not belong to this workspace and request")
    source ← inspect_root host descriptor.source_root
    fail_if (source != workspace_root)
        (fault "worktree.source_mismatch" "active worktree source does not match the workspace")
    root ← inspect_root host descriptor.root
    storage ← controlled_worktree_storage
    expected ←
        map_err
          (λ _.
            fault "worktree.storage_mismatch"
              "active worktree is not in controlled temporary storage")
          (host.canonicalize
            (join (join storage (segment (bytes "runs"))) (host.parse_path descriptor.run_id)))
    fail_if (root != expected) (
        fault "worktree.storage_mismatch"
          "active worktree path does not match its controlled run ID")
    validate_worktree_lease storage descriptor root workspace_root workspace_id request_id
    validate_git_file root descriptor
    ok root

  unfoldable pub validate_active_descriptor :
      Option ActiveWorktree → FilePath → Text → Text → Checked (Option FilePath)
  validate_active_descriptor none workspace_root workspace_id request_id = ok none
  validate_active_descriptor (some descriptor) workspace_root workspace_id request_id = do
    root ← active_root descriptor workspace_root workspace_id request_id
    ok (some root)

  -- the observed source behind an active worktree
  unfoldable pub source_unchanged : PolicyRequest → ActiveWorktree → Checked Unit
  source_unchanged request descriptor = do
    repository ←
        ok_or
          (fault "worktree.source_state_missing"
            "active worktree requires an observed source repository boundary")
          request.workspace.repository
    fail_if (repository.head != descriptor.base_head) (
        fault "worktree.source_head_drift"
          "source HEAD changed after the worktree lease was created")
    fail_if (request.workspace.repository_clean != some true) (
        fault "worktree.source_dirty" "source repository is dirty or its cleanliness is unobserved")
    require_working_tree_digest request

  abbrev when_some : {A : Type 0} → Option A → (A → Checked Unit) → Checked Unit
  when_some none check = ok tt
  when_some (some a) check = check a

  unfoldable pub validated_active_worktree : PolicyRequest → FilePath → Checked (Option FilePath)
  validated_active_worktree request workspace_root = do
    active ←
        validate_active_descriptor request.workspace.active_worktree workspace_root
          request.workspace.workspace_id request.request_id
    when_some request.workspace.active_worktree (source_unchanged request)
    ok active

  unfoldable pub require_read_scope : PolicyRequest → FilePath → FilePath → Checked Unit
  require_read_scope request workspace_root action_root =
      if action_root == workspace_root then ok tt else do
        active ← validated_active_worktree request workspace_root
        fail_if (active != some action_root) (
            fault "path.outside_workspace" "read root is outside the workspace and active worktree")

  unfoldable pub require_workspace_or_active_root :
      PolicyRequest → FilePath → FilePath → Checked Unit
  unfolding require_read_scope
  require_workspace_or_active_root request workspace_root action_root =
      require_read_scope request workspace_root action_root

  unfoldable pub validate_worktree_destination : FilePath → Text → Checked Unit
  validate_worktree_destination destination run_id = do
    validate_worktree_run_id run_id
    storage ← controlled_worktree_storage
    runs ←
        map_err
          (λ _.
            fault "worktree.storage_unavailable"
              "controlled worktree runs directory is unavailable")
          (host.canonicalize (join storage (segment (bytes "runs"))))
    fail_if
        (and_then (parent destination) resolved != some runs
          || file_name destination != some run_id)
        (fault "worktree.destination_denied"
          "worktree destination is outside the controlled run directory")
    fail_if (host.exists destination)
        (fault "worktree.destination_exists" "worktree destination already exists")

  unfoldable pub validate_transaction_action : TransactionAction → FilePath → Checked Unit
  validate_transaction_action action workspace_root = do
    root ← inspect_root host action.workspace_root
    fail_if (root != workspace_root)
        (fault "transaction.workspace_mismatch" "transaction belongs to a different workspace")
    validate_identifier_value action.transaction_id "transaction ID"
    validate_hash_value action.expected_state_hash "transaction state hash"
