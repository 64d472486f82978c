-- ===== src/Request.antt =====
-- `validate_request` and `validate_repository_boundary` of crates/opticcode-policy/src/engine.rs: what
-- a request must be before any rule is read.
use optic_code.FilePath
use optic_code.FilePath.{FilePath, file_name, join, normal, option_path_eq, parent, path_eq}
use optic_code.Host.{Host, metadata_is_link_or_reparse}
use optic_code.Model.{
  ActionOrigin, GitRepositoryBoundary, PolicyRequest, max_policy_identifier_bytes,
  max_policy_request_id_bytes, origin_eq, policy_schema_version,
}
use optic_code.Paths.{Checked, PathSafetyError, inspect_root}
use optic_code.Prelude.{
  Bool, Option, Result, String, [], all, and_then, fail_if, false, is_empty, length, ltb, map_err,
  nat_eq, none, not, ok, some, to_option, ◌!=◌, ◌&&◌, ◌==◌, ◌>>=◌, ◌>>◌, ◌||◌, ◌∷◌,
}
use optic_code.Text.{Text, bytes, is_ascii_hexdigit, option_text_eq, text_eq}
use optic_code.Validate.{
  PolicyError, invalid_path_request, invalid_request, is_id_byte, validate_hash_value,
  validate_request_identifier,
}

abbrev fault : String → String → PathSafetyError
fault rule message = record { rule_id = rule; message = bytes message }

-- `expected opticcode.policy schema 1`
abbrev pub policy_protocol_id : Text
policy_protocol_id = bytes "opticcode.policy"

unfoldable pub malformed_approval_id : Option Text → Bool
malformed_approval_id none = false
malformed_approval_id (some value) =
    is_empty value || ltb max_policy_identifier_bytes (length value) || not (all is_id_byte value)

abbrev full_oid : Text → Bool
full_oid head = (length head == 40 || length head == 64) && all is_ascii_hexdigit head

module _ (host : Host) where
  abbrev resolved : FilePath → Option FilePath
  resolved p = to_option (host.canonicalize p)

  -- the Git index: a plain file called `index` in the gitdir
  unfoldable pub index_checked : FilePath → FilePath → Checked Unit
  index_checked index git_dir = do
    metadata ←
        map_err
          (λ _.
            fault "git.index_missing" "Git index boundary does not exist or cannot be inspected")
          (host.symlink_metadata index)
    fail_if
        (not metadata.is_file
          || metadata_is_link_or_reparse metadata
          || file_name index != some (bytes "index")
          || and_then (parent index) resolved != some git_dir)
        (fault "git.index_missing" "Git index boundary is empty or outside the worktree gitdir")

  -- `validate_repository_boundary` behind its `let Some(boundary)`
  unfoldable pub boundary_checked : GitRepositoryBoundary → FilePath → Checked Unit
  boundary_checked boundary workspace_path = do
    workspace ← inspect_root host workspace_path
    worktree ← inspect_root host boundary.worktree_root
    fail_if (workspace != worktree)
        (fault "git.workspace_mismatch" "declared repository root differs from the workspace root")
    git_dir ← inspect_root host boundary.git_dir
    common_dir ← inspect_root host boundary.common_dir
    object_dir ← inspect_root host boundary.object_dir
    fail_if (boundary.main_worktree && git_dir != common_dir)
        (fault "git.boundary_mismatch" "main worktree gitdir must match its common directory")
    fail_if
        (boundary.main_worktree
          && resolved (join workspace (normal (bytes ".git") ∷ [])) != some git_dir)
        (fault "git.boundary_mismatch" "main Git directory is not the workspace .git directory")
    fail_if
        (not boundary.main_worktree
          && (git_dir == common_dir || not (FilePath.starts_with git_dir common_dir)))
        (fault "git.boundary_mismatch"
          "linked worktree gitdir is outside the declared common directory")
    fail_if (object_dir != join common_dir (normal (bytes "objects") ∷ [])) (
        fault "git.object_boundary_mismatch"
          "Git object directory is not the exact common objects directory")
    fail_if (not (full_oid boundary.head))
        (fault "git.head_invalid" "repository HEAD is not a full hexadecimal object ID")
    index_checked boundary.index git_dir

  unfoldable pub validate_repository_boundary :
      Option GitRepositoryBoundary → FilePath → Checked Unit
  validate_repository_boundary none workspace = ok tt
  validate_repository_boundary (some boundary) workspace = boundary_checked boundary workspace

  unfoldable pub validate_request : PolicyRequest → Result PolicyError Unit
  validate_request request = do
    fail_if
        (request.schema_version != policy_schema_version || request.protocol != policy_protocol_id)
        (invalid_request (bytes "expected opticcode.policy schema 1"))
    validate_request_identifier request.request_id max_policy_request_id_bytes "request ID"
    validate_request_identifier request.action_id max_policy_identifier_bytes "action ID"
    validate_request_identifier request.workspace.workspace_id max_policy_identifier_bytes
        "workspace ID"
    validate_request_identifier request.profile 96 "profile"
    validate_request_identifier request.client.name 96 "client name"
    validate_request_identifier request.client.version 96 "client version"
    fail_if (request.origin == ActionOrigin.unknown)
        (invalid_request (bytes "unknown action origin is not accepted"))
    fail_if (malformed_approval_id request.approval_id)
        (invalid_request (bytes "approval ID is malformed"))
    elim request.workspace.working_tree_digest [
      | none ↦ ok tt
      | some digest ↦
          map_err invalid_path_request (validate_hash_value digest "working-tree digest")
    ]
    map_err invalid_path_request
        (validate_repository_boundary request.workspace.repository request.workspace.root)
