-- ===== src/Transaction/Git.antt =====
-- The Git checks of crates/opticcode-tools/src/apply_transaction.rs: which changes of a snapshot count,
-- and what must be the same before a commit and after a rollback.
use optic_code.FilePath
use optic_code.FilePath.{FilePath, path_eq}
use optic_code.Prelude.{
  Bool, List, Option, Result, [], contains, err, false, if◌then◌else◌, is_some, map_ok, nat_eq,
  none, not, ok, some, ◌!=◌, ◌++◌, ◌==◌, ◌||◌, ◌∷◌,
}
use optic_code.Text.{Text, bytes, forward_slashes, split_on, text_eq}
use optic_code.Transaction.Machine.{
  Op, World, after, attempt, call, gets, lift, pure, raise, ◌>>=◌, ◌>>◌,
}
use optic_code.Transaction.Model.{
  ApplyGitPolicy, ApplyTransactionFile, ApplyTransactionManifest, Failure, GitChange,
  GitStateSnapshot, git_changes_eq, optional, precondition, transaction_error,
}
use optic_code.Transaction.Targets.{about, metadata_name, portable, validate_relative_path}

-- `split('/')`, and whether one part is `.opticcode`
abbrev in_metadata : Text → Bool
in_metadata path = contains (split_on (λ c. c == 47) (forward_slashes path)) metadata_name

unfoldable pub kept_changes : List GitChange → List GitChange
kept_changes [] = []
kept_changes (c ∷ rest) =
    let kept = kept_changes rest in if in_metadata c.path then kept else c ∷ kept

unfoldable pub effective_git_changes : GitStateSnapshot → List GitChange
unfolding kept_changes
effective_git_changes snapshot = kept_changes snapshot.changes

abbrev manages : List Text → Option Text → Bool
manages managed none = false
manages managed (some path) = contains managed (forward_slashes path)

unfoldable pub unmanaged : List Text → List GitChange → List GitChange
unmanaged managed [] = []
unmanaged managed (c ∷ rest) =
    let kept = unmanaged managed rest in
    if contains managed (forward_slashes c.path) || manages managed c.original_path
    then kept
    else c ∷ kept

unfoldable pub unrelated_git_changes : GitStateSnapshot → List Text → List GitChange
unfolding unmanaged
unrelated_git_changes snapshot managed = unmanaged managed (effective_git_changes snapshot)

abbrev pub answered : Result Text GitStateSnapshot → Op GitStateSnapshot
answered (ok snapshot) = pure snapshot
answered (err message) = lift (err (record { error_kind = none; message = message }))

module _ (w : World) where
  -- `capture_git_state`, asked of the workspace as it is now
  unfoldable pub capture_git_state : Op GitStateSnapshot
  capture_git_state = do call w; answer ← gets (λ s. w.capture_git s.tree); answered answer

  abbrev pub by_policy :
      ApplyGitPolicy → Result Failure GitStateSnapshot → Op (Option GitStateSnapshot)
  by_policy policy (ok snapshot) = pure (some snapshot)
  by_policy optional (err e) = pure none
  by_policy policy (err e) =
      raise precondition (bytes "transaction requires a Git worktree: " ++ e.message)

  unfoldable pub capture_git_for_policy : ApplyGitPolicy → Op (Option GitStateSnapshot)
  capture_git_for_policy policy = attempt capture_git_state >>= by_policy policy

  unfoldable pub capture_git_for_manifest : ApplyTransactionManifest → Op (Option GitStateSnapshot)
  capture_git_for_manifest manifest =
      if not (is_some manifest.git_before)
      then pure none
      else capture_git_state >>= λ snapshot. pure (some snapshot)

  abbrev pub compared : GitStateSnapshot → GitStateSnapshot → Option Bool × Option GitStateSnapshot
  compared before after =
      (some (effective_git_changes before == effective_git_changes after), some after)

  abbrev pub git_since : Option GitStateSnapshot → Op (Option Bool × Option GitStateSnapshot)
  git_since none = pure (none, none)
  git_since (some before) = capture_git_state >>= λ after. pure (compared before after)

  unfoldable pub verify_git_restored :
      ApplyTransactionManifest → Op (Option Bool × Option GitStateSnapshot)
  verify_git_restored manifest = git_since manifest.git_before

  -- the path of a managed file, as Git spells it
  abbrev managed_path : FilePath → FilePath → ApplyTransactionFile → Result Failure Text
  managed_path workspace root entry = elim (validate_relative_path (w.parse_path entry.path)) [
    | err e ↦ err e
    | ok relative ↦ elim (FilePath.strip_prefix (workspace ++ relative) root) [
      | none ↦ err (
          transaction_error precondition
            (about "managed transaction file is outside the Git root: " (workspace ++ relative)))
      | some below ↦ ok (portable below)
    ]
  ]

  unfoldable pub managed_paths :
      FilePath → FilePath → List ApplyTransactionFile → Result Failure (List Text)
  managed_paths workspace root [] = ok []
  managed_paths workspace root (entry ∷ rest) = elim (managed_path workspace root entry) [
    | err e ↦ err e
    | ok path ↦ map_ok (λ paths. path ∷ paths) (managed_paths workspace root rest)
  ]

  unfoldable pub verify_git_state_for_commit :
      ApplyTransactionManifest → Option GitStateSnapshot → Result Failure Unit
  verify_git_state_for_commit manifest after = elim manifest.git_before [
    | none ↦ ok tt
    | some before ↦ elim after [
      | none ↦
          err (
            transaction_error precondition
              (bytes "Git state disappeared before transaction commit"))
      | some now ↦
          if before.root != now.root
          then err (
              transaction_error precondition
                (about "Git root changed before transaction commit: " before.root))
          else elim (managed_paths manifest.workspace before.root manifest.files) [
            | err e ↦ err e
            | ok managed ↦
                if unrelated_git_changes before managed != unrelated_git_changes now managed
                then err (
                    transaction_error precondition (
                      bytes
                        "unrelated Git worktree changes appeared or changed during transaction"))
                else ok tt
          ]
    ]
  ]
