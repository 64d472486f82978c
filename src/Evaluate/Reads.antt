-- ===== src/Evaluate/Reads.antt =====
-- The read-only actions of `evaluate_action` in crates/opticcode-policy/src/engine.rs.
use optic_code.FilePath
use optic_code.FilePath.{FilePath}
use optic_code.Host.{Host}
use optic_code.Model.{PolicyRequest, high, max_policy_paths}
use optic_code.Model.Actions.{
  ContextAction, GitReadAction, GitReadOperation, PathTarget, RagAction, SearchAction, git_read_eq,
}
use optic_code.Paths.{PathExpectation, directory, existing_entry, file, inspect_path, inspect_root}
use optic_code.Prelude.{List, [], fail_if, false, if◌then◌else◌, length, ltb, none, not, ◌==◌, ◌∷◌}
use optic_code.Rules.{Eval, RuleOutcome, allowed, denied, done, push, try, ◌>>=◌, ◌>>◌}
use optic_code.Text.{bytes}
use optic_code.Validate.{validate_hash_value, validate_sorted_paths}
use optic_code.Worktree.{require_read_scope, require_workspace_or_active_root}

abbrev pub plain_target : FilePath → FilePath → PathTarget
plain_target root path = record { root = root; path = path; range = none; expected_hash = none }

module _ (host : Host) where
  -- a loop that inspects each path and keeps its report
  unfoldable pub inspect_each : PathExpectation → FilePath → List FilePath → Eval Unit
  inspect_each expectation root [] = done tt
  inspect_each expectation root (p ∷ rest) = do
    report ← try (inspect_path host (plain_target root p) expectation)
    push report
    inspect_each expectation root rest

  unfoldable pub inspect_path_list : FilePath → List FilePath → Eval Unit
  inspect_path_list root input = do
    try (
        fail_if (ltb max_policy_paths (length input)) (record {
          rule_id = "action.path_limit";
          message = bytes "action contains too many paths";
        }))
    try (validate_sorted_paths input)
    inspect_each existing_entry root input

  unfoldable pub evaluate_read_file : PolicyRequest → FilePath → PathTarget → Eval RuleOutcome
  evaluate_read_file request workspace_root target = do
    report ← try (inspect_path host target file)
    try (require_read_scope host request workspace_root report.root)
    push report
    done (
        allowed "read.safe_workspace_file" "workspace_source"
          ("regular path" ∷ "inside workspace" ∷ "secret path denied" ∷ "TOCTOU revalidation" ∷ [])
          "Safe workspace source may be read."
          "The file passed canonicalization, root, reparse, nested-repository, and sensitive-path checks.")

  unfoldable pub evaluate_read_directory : PolicyRequest → FilePath → PathTarget → Eval RuleOutcome
  evaluate_read_directory request workspace_root target = do
    report ← try (inspect_path host target directory)
    try (require_read_scope host request workspace_root report.root)
    push report
    done (
        allowed "read.safe_workspace_directory" "workspace_directory"
          ("regular path" ∷ "inside workspace" ∷ "bounded traversal required" ∷ [])
          "The safe workspace directory may be inspected."
          "Directory traversal remains bounded and cannot cross links or repository boundaries.")

  unfoldable pub evaluate_search : PolicyRequest → FilePath → SearchAction → Eval RuleOutcome
  evaluate_search request workspace_root action = do
    root ← try (inspect_root host action.root)
    try (require_read_scope host request workspace_root root)
    try (validate_hash_value action.query_hash "search query hash")
    inspect_path_list root action.paths
    done (
        allowed "analysis.search_read_only" "workspace_search"
          ("bounded query" ∷ "safe source types" ∷ "no writes" ∷ [])
          "Read-only workspace search is allowed."
          "Search is constrained to the canonical workspace and safe paths.")

  unfoldable pub evaluate_context : PolicyRequest → FilePath → ContextAction → Eval RuleOutcome
  evaluate_context request workspace_root action = do
    root ← try (inspect_root host action.root)
    try (require_read_scope host request workspace_root root)
    try (validate_hash_value action.task_hash "context task hash")
    inspect_path_list root action.candidate_paths
    done (
        allowed "analysis.context_read_only" "workspace_context"
          ("bounded context" ∷ "safe source reads" ∷ "no writes" ∷ [])
          "Java and project context may be built."
          "Context construction is a read-only action over validated roots.")

  unfoldable pub evaluate_rag : FilePath → RagAction → Eval RuleOutcome
  evaluate_rag workspace_root action = do
    try (validate_hash_value action.query_hash "RAG query hash")
    root ← try (inspect_root host action.index_root)
    if not (FilePath.starts_with root workspace_root)
        then done (
            denied "rag.index_outside_workspace" high
              "The RAG index is outside the authorized workspace."
              "This policy version only trusts a workspace-owned validated index."
              "Use the configured OpticCode RAG v2 index inside the workspace." false)
        else done (
            allowed "rag.safe_index_read" "rag_v2"
              ("validated index" ∷ "bounded hits" ∷ "secret exclusions" ∷ [])
              "The validated local RAG index may be queried."
              "RAG access is local and read-only; source policy still applies.")

  unfoldable pub evaluate_git_read : PolicyRequest → FilePath → GitReadAction → Eval RuleOutcome
  evaluate_git_read request workspace_root action =
      if action.operation == GitReadOperation.unknown
      then done (
          denied "git.read_operation_unknown" high "Unknown Git operations are blocked."
            "The Git read operation is outside the closed allowlist."
            "Use status, diff, log, show, rev-parse, or list-files." false)
      else do
        repository ← try (inspect_root host action.repository_root)
        try (require_workspace_or_active_root host request workspace_root repository)
        inspect_path_list repository action.paths
        done (
            allowed "git.read_allowlist" "repository_read"
              ("read-only Git operation" ∷ "no ref mutation" ∷ "no network" ∷ [])
              "The requested Git inspection is allowed."
              "The operation is in the closed read-only Git allowlist.")
