-- ===== src/Tests/World.antt =====
-- A host with a source project, a disposable worktree under the temporary directory and its Git
-- directories.
use optic_code.FilePath.{FilePath, normal, path_eq, root_dir}
use optic_code.Host.{Host, IoError, Metadata, WorktreeLeaseWire, not_found}
use optic_code.Model.{
  ActiveWorktree, GitRepositoryBoundary, PolicyMode, PolicyRequest, PolicyWorkspace, user,
}
use optic_code.Model.Actions.{PathTarget, PolicyAction}
use optic_code.Prelude.{
  Bool, List, Result, [], contains, err, false, if◌then◌else◌, is_ok, length, map_ok, none, not, ok,
  some, true, ℕ, ◌++◌, ◌==◌, ◌∷◌,
}
use optic_code.Text.{Text, bytes, text_eq}

abbrev pub digest : Text
digest = bytes "0123456789abcdef0123456789abcdef0123456789abcdef0123456789abcdef"

abbrev pub source : FilePath
source = root_dir ∷ normal (bytes "s") ∷ []

abbrev pub state_dir : FilePath
state_dir = root_dir ∷ normal (bytes "state") ∷ []

abbrev pub temp : FilePath
temp = root_dir ∷ normal (bytes "t") ∷ []

abbrev pub controlled : FilePath
controlled = temp ++ normal (bytes "opticcode-worktrees") ∷ []

abbrev pub worktree : FilePath
worktree = controlled ++ normal (bytes "runs") ∷ normal (bytes "r") ∷ []

abbrev pub common : FilePath
common = root_dir ∷ normal (bytes "g") ∷ []

abbrev pub git_dir : FilePath
git_dir = common ++ normal (bytes "w") ∷ []

abbrev pub directories : List FilePath
directories = source ∷ state_dir ∷ temp ∷ controlled ∷ worktree ∷ common ∷ git_dir ∷ []

abbrev pub files : List (FilePath × Text)
files =
    (source ++ normal (bytes "mvnw") ∷ [], bytes "run")
    ∷ (worktree ++ normal (bytes "mvnw") ∷ [], bytes "run")
    ∷ (worktree ++ normal (bytes ".git") ∷ [], bytes "gitdir: /g/w")
    ∷ (git_dir ++ normal (bytes "commondir") ∷ [], bytes "/g")
    ∷ (controlled ++ normal (bytes "leases") ∷ normal (bytes "r.json") ∷ [], bytes "lease")
    ∷ []

abbrev content_in : List (FilePath × Text) → FilePath → Result IoError Text
content_in [] p = err not_found
content_in ((q, t) ∷ rest) p = if q == p then ok t else content_in rest p

abbrev entry_of : Bool → ℕ → Metadata
entry_of dir size = record {
  is_dir = dir;
  is_file = not dir;
  is_symlink = false;
  len = size;
  modified_unix_nanos = 7;
}

abbrev entry_at : Bool → Result IoError Text → Result IoError Metadata
entry_at true content = ok (entry_of true 0)
entry_at false (ok t) = ok (entry_of false (length t))
entry_at false (err e) = err e

abbrev pub entry : FilePath → Result IoError Metadata
entry p = entry_at (contains directories p) (content_in files p)

abbrev pub lease : WorktreeLeaseWire
lease = record {
  schema_version = 1;
  run_id = bytes "r";
  owner_workspace_id = bytes "ws";
  owner_request_id = bytes "rq";
  process_id = 1;
  created_unix_ms = 5;
  source_git_root = source;
  source_project = source;
  source_commit = digest;
  worktree_path = worktree;
}

abbrev spelled : Text → FilePath
spelled t = if t == bytes "/g/w" then git_dir else if t == bytes "/g" then common else normal t ∷ []

abbrev pub host : Host
host = record {
  symlink_metadata = entry;
  canonicalize = λ p. map_ok (λ _. p) (entry p);
  read = content_in files;
  exists = λ p. is_ok (entry p);
  temp_dir = temp;
  parse_path = spelled;
  blake3 = λ _. digest;
  show = λ _. bytes "0";
  action_json = λ _. ok (bytes "action");
  request_json = λ _. ok (bytes "request");
  parse_lease = λ _. ok lease;
}

abbrev pub repository : GitRepositoryBoundary
repository = record {
  worktree_root = source;
  git_dir = common;
  common_dir = common;
  index = common ++ normal (bytes "index") ∷ [];
  object_dir = common ++ normal (bytes "objects") ∷ [];
  head = digest;
  main_worktree = true;
}

abbrev pub active : ActiveWorktree
active = record {
  run_id = bytes "r";
  owner_workspace_id = bytes "ws";
  owner_request_id = bytes "rq";
  root = worktree;
  source_root = source;
  base_head = digest;
  git_dir = git_dir;
  common_dir = common;
}

abbrev pub workspace : PolicyWorkspace
workspace = record {
  workspace_id = bytes "ws";
  root = source;
  repository = none;
  active_worktree = none;
  working_tree_digest = some digest;
  repository_clean = some true;
}

abbrev pub observed_workspace : PolicyWorkspace
observed_workspace = record workspace {
  repository = some repository;
  active_worktree = some active;
}

abbrev pub wrapper_target : PathTarget
wrapper_target = record {
  root = source;
  path = normal (bytes "mvnw") ∷ [];
  range = none;
  expected_hash = some digest;
}

abbrev pub request : PolicyMode → PolicyWorkspace → PolicyAction → PolicyRequest
request mode observed action = record {
  schema_version = 1;
  protocol = bytes "opticcode.policy";
  request_id = bytes "rq";
  action_id = bytes "ac";
  origin = user;
  profile = bytes "p";
  client = record { name = bytes "c"; version = bytes "1" };
  mode = mode;
  workspace = observed;
  action = action;
  approval_id = none;
}
