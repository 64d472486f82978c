-- ===== src/Engine/Binding.antt =====
-- `approval_binding` of crates/opticcode-policy/src/engine.rs: the state that an approval is bound to.
use optic_code.Approval.{Codec}
use optic_code.Approval.Binding.{ApprovalBinding, ApprovalFileBinding, normalized}
use optic_code.FilePath.{FilePath, to_text}
use optic_code.Host.{Host}
use optic_code.Model.{PolicyRequest}
use optic_code.Model.Actions.{
  PolicyAction, TransactionAction, apply_patch, git_commit, recover_transaction,
  rollback_transaction,
}
use optic_code.Paths.{PathSafetyReport, inspect_root}
use optic_code.Prelude.{
  List, Result, [], map, map_err, map_ok, none, ok, ok_or, some, take, ◌++◌, ◌>>=◌, ◌>>◌, ◌∷◌,
}
use optic_code.Text.{Text, bytes, forward_slashes, to_ascii_lowercase}
use optic_code.Validate.{PolicyError, invalid_path_request, invalid_request, validate_hash_value}

unfoldable pub normalized_absolute : FilePath → Text
normalized_absolute p = to_ascii_lowercase (forward_slashes (to_text p))

module _ (host : Host) where
  unfoldable pub action_hash : PolicyAction → Result PolicyError Text
  action_hash action = map_ok host.blake3 (map_err invalid_request (host.action_json action))

  -- the digest of an inspected path, and that of its content or else of its metadata
  abbrev file_binding : PathSafetyReport → ApprovalFileBinding
  file_binding path = record {
    path_hash = host.blake3 (
        normalized_absolute path.root ++ bytes ":" ++ forward_slashes (to_text path.relative_path));
    expected_hash = elim path.fingerprint.content_hash [
      | some hash ↦ hash
      | none ↦ path.fingerprint.metadata_hash
    ];
  }

  unfoldable pub file_bindings : FilePath → List PathSafetyReport → List ApprovalFileBinding
  file_bindings workspace_root [] =
      record {
        path_hash = host.blake3 (normalized_absolute workspace_root);
        expected_hash = host.blake3 (bytes "no_file_binding");
      }
      ∷ []
  file_bindings workspace_root (p ∷ rest) = file_binding p ∷ map file_binding rest

abbrev head_of : PolicyRequest → Text
head_of request = elim request.workspace.repository [
  | none ↦ bytes "no-head"
  | some repository ↦ repository.head
]

-- HEAD, diff hash, files hash and transaction of an action; `hash` is the action's
pub record Subject : Type 0 where
  pub base_head : Text
  pub diff_hash : Text
  pub files_hash : Text
  pub transaction_id : Text

abbrev transaction_subject : PolicyRequest → TransactionAction → Text → Subject
transaction_subject request action files_hash = record {
  base_head = head_of request;
  diff_hash = action.expected_state_hash;
  files_hash = files_hash;
  transaction_id = action.transaction_id;
}

unfoldable pub subject_of :
    PolicyRequest → PolicyAction → Text → Result PolicyError Text → Result PolicyError Subject
subject_of request (apply_patch action) hash hashed_files = ok (record {
  base_head = action.base_head;
  diff_hash = action.diff_hash;
  files_hash = action.files_hash;
  transaction_id = action.transaction_id;
})
subject_of request (git_commit action) hash hashed_files = do
  files_hash ← hashed_files
  ok (record {
    base_head = head_of request;
    diff_hash = action.tree_hash;
    files_hash = files_hash;
    transaction_id = bytes "commit-" ++ take 16 action.tree_hash;
  })
subject_of request (recover_transaction action) hash hashed_files = do
  files_hash ← hashed_files
  ok (transaction_subject request action files_hash)
subject_of request (rollback_transaction action) hash hashed_files = do
  files_hash ← hashed_files
  ok (transaction_subject request action files_hash)
subject_of request _ hash hashed_files = do
  files_hash ← hashed_files
  ok (record {
    base_head = head_of request;
    diff_hash = hash;
    files_hash = files_hash;
    transaction_id = bytes "action-" ++ take 16 hash;
  })

module _ (host : Host) (codec : Codec) where
  unfoldable pub hash_file_bindings : List ApprovalFileBinding → Result PolicyError Text
  hash_file_bindings files = map_ok host.blake3 (map_err invalid_request (codec.files_json files))

  unfoldable pub approval_binding :
      PolicyRequest → List PathSafetyReport → Result PolicyError ApprovalBinding
  approval_binding request paths = do
    hash ← action_hash host request.action
    workspace_root ← map_err invalid_path_request (inspect_root host request.workspace.root)
    digest ←
        ok_or (invalid_request (bytes "approval requires an observed working-tree digest"))
          request.workspace.working_tree_digest
    map_err invalid_path_request (validate_hash_value digest "working-tree digest")
    let files = file_bindings host workspace_root paths
    subject ← subject_of request request.action hash (hash_file_bindings files)
    map_err invalid_request (
        normalized (record {
          request_id = request.request_id;
          workspace_id = request.workspace.workspace_id;
          workspace_root_hash = host.blake3 (normalized_absolute workspace_root);
          mode = request.mode;
          base_head = subject.base_head;
          working_tree_digest = digest;
          diff_hash = subject.diff_hash;
          files_hash = subject.files_hash;
          files = files;
          action_hashes = hash ∷ [];
          transaction_id = subject.transaction_id;
        }))
