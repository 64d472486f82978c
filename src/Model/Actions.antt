-- ===== src/Model/Actions.antt =====
-- crates/opticcode-policy/src/model.rs: the closed enum of actions and their payloads.
use optic_code.FilePath.{FilePath}
use optic_code.Prelude.{Bool, Eq, List, Option, String, ℕ}
use optic_code.Text.{Text}

pub record TextPosition : Type 0 where
  pub line : ℕ
  pub character : ℕ

pub record TextRange : Type 0 where
  pub start : TextPosition
  pub end : TextPosition

pub record PathTarget : Type 0 where
  pub root : FilePath
  pub path : FilePath
  pub range : Option TextRange
  pub expected_hash : Option Text

pub record SearchAction : Type 0 where
  pub root : FilePath
  pub query_hash : Text
  pub paths : List FilePath

pub record ContextAction : Type 0 where
  pub root : FilePath
  pub task_hash : Text
  pub candidate_paths : List FilePath

pub record RagAction : Type 0 where
  pub index_root : FilePath
  pub source_ids : List Text
  pub query_hash : Text

pub record DeleteAction : Type 0 where
  pub target : PathTarget
  pub recursive : Bool

pub record ApplyPatchAction : Type 0 where
  pub root : FilePath
  pub paths : List FilePath
  pub created_paths : List FilePath
  pub diff_hash : Text
  pub files_hash : Text
  pub transaction_id : Text
  pub base_head : Text

pub data NetworkIntent : Type 0 where
  denied declared required undeclared : NetworkIntent

pub data ProcessLaunch : Type 0 where
  direct windows_command_script shell : ProcessLaunch

unfoldable pub NetworkIntent-discrete : Discrete NetworkIntent
NetworkIntent-discrete = hlevel

instance abbrev pub network_eq : Eq NetworkIntent
network_eq = record { dec = NetworkIntent-discrete }

unfoldable pub ProcessLaunch-discrete : Discrete ProcessLaunch
ProcessLaunch-discrete = hlevel

instance abbrev pub launch_eq : Eq ProcessLaunch
launch_eq = record { dec = ProcessLaunch-discrete }

pub record RunProcessAction : Type 0 where
  pub executable : FilePath
  pub arguments : List Text
  pub cwd : FilePath
  pub timeout_ms : ℕ
  pub output_limit_bytes : ℕ
  pub network : NetworkIntent
  pub launch : ProcessLaunch
  pub environment_allowlist : List Text

pub record CreateWorktreeAction : Type 0 where
  pub repository_root : FilePath
  pub destination : FilePath
  pub base_head : Text
  pub run_id : Text
  pub detached : Bool

pub record CleanupWorktreeAction : Type 0 where
  pub repository_root : FilePath
  pub worktree_root : FilePath
  pub run_id : Text

pub data GitReadOperation : Type 0 where
  status diff log show rev_parse list_files unknown : GitReadOperation

pub data GitWriteOperation : Type 0 where
  add restore checkout merge worktree_add worktree_remove tag branch unknown : GitWriteOperation

unfoldable pub GitReadOperation-discrete : Discrete GitReadOperation
GitReadOperation-discrete = hlevel

instance abbrev pub git_read_eq : Eq GitReadOperation
git_read_eq = record { dec = GitReadOperation-discrete }

unfoldable pub GitWriteOperation-discrete : Discrete GitWriteOperation
GitWriteOperation-discrete = hlevel

instance abbrev pub git_write_eq : Eq GitWriteOperation
git_write_eq = record { dec = GitWriteOperation-discrete }

pub record GitReadAction : Type 0 where
  pub repository_root : FilePath
  pub operation : GitReadOperation
  pub paths : List FilePath

pub record GitWriteAction : Type 0 where
  pub repository_root : FilePath
  pub operation : GitWriteOperation
  pub paths : List FilePath

pub record GitCommitAction : Type 0 where
  pub repository_root : FilePath
  pub tree_hash : Text
  pub message_hash : Text

pub record TransactionAction : Type 0 where
  pub workspace_root : FilePath
  pub transaction_id : Text
  pub expected_state_hash : Text

pub data PolicyAction : Type 0 where
  read_file read_directory : PathTarget → PolicyAction
  search_files : SearchAction → PolicyAction
  build_context : ContextAction → PolicyAction
  use_rag : RagAction → PolicyAction
  write_file create_file : PathTarget → PolicyAction
  delete_file : DeleteAction → PolicyAction
  apply_patch : ApplyPatchAction → PolicyAction
  run_process : RunProcessAction → PolicyAction
  create_worktree : CreateWorktreeAction → PolicyAction
  cleanup_worktree : CleanupWorktreeAction → PolicyAction
  git_read : GitReadAction → PolicyAction
  git_write : GitWriteAction → PolicyAction
  git_commit : GitCommitAction → PolicyAction
  git_push : GitWriteAction → PolicyAction
  network_access : (destination_hash purpose : Text) → PolicyAction
  package_install : (ecosystem package_set_hash : Text) → PolicyAction
  publish : (target artifact_hash : Text) → PolicyAction
  recover_transaction rollback_transaction : TransactionAction → PolicyAction
  modify_policy elevate_privileges unknown_action : PolicyAction

-- `PolicyAction::kind`
unfoldable pub kind : PolicyAction → String
kind (read_file _) = "read_file"
kind (read_directory _) = "read_directory"
kind (search_files _) = "search"
kind (build_context _) = "build_context"
kind (use_rag _) = "use_rag"
kind (write_file _) = "write_file"
kind (create_file _) = "create_file"
kind (delete_file _) = "delete_file"
kind (apply_patch _) = "apply_patch"
kind (run_process _) = "run_process"
kind (create_worktree _) = "create_worktree"
kind (cleanup_worktree _) = "cleanup_worktree"
kind (git_read _) = "git_read"
kind (git_write _) = "git_write"
kind (git_commit _) = "git_commit"
kind (git_push _) = "git_push"
kind (network_access _ _) = "network_access"
kind (package_install _ _) = "package_install"
kind (publish _ _) = "publish"
kind (recover_transaction _) = "recover_transaction"
kind (rollback_transaction _) = "rollback_transaction"
kind modify_policy = "modify_policy"
kind elevate_privileges = "elevate_privileges"
kind unknown_action = "unknown"
