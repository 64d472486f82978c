-- ===== src/Transaction/GitReads.antt =====
-- The Git queries of crates/opticcode-tools/src/apply_transaction.rs leave the workspace as it is.
use optic_code.Prelude.{Option, Result, err, is_some, none, not, ok, some}
use optic_code.Text.{Text}
use optic_code.Transaction.Git.{
  answered, by_policy, capture_git_for_manifest, capture_git_for_policy, capture_git_state,
  git_since, verify_git_restored,
}
use optic_code.Transaction.Logic.{
  Answers, Does, Does-attempt, Does-bind, Does-call, Does-gets, Does-if, Does-lift, Does-pure,
  Does-raise, IsQuiet,
}
use optic_code.Transaction.Machine.{Tree, World}
use optic_code.Transaction.Model.{
  ApplyGitPolicy, ApplyTransactionManifest, Failure, GitStateSnapshot, allow_dirty, optional,
  require_clean,
}

module _ (w : World) (q : IsQuiet w) {P : Tree → Type 0} {E : Tree → Type 0}
    (hp : (t : Tree) → P t → E t) where
  pub Does-capture_git_state : Does P (capture_git_state w) (λ _. P) E
  unfolding capture_git_state
  Does-capture_git_state =
      Does-bind _ _ (Does-call w q hp)
        (λ _. Does-bind _ _ (Does-gets {Q = λ _. P} _ (λ s h. h)) answer)
    where
      answer : (r : Result Text GitStateSnapshot) → Does P (answered r) (λ _. P) E
      answer (ok a) = Does-pure a (λ t h. h)
      answer (err e) = Does-lift _ (λ t h a e. cc) hp

  pub Does-capture_git_for_manifest :
      (m : ApplyTransactionManifest) → Does P (capture_git_for_manifest w m) (λ _. P) E
  unfolding capture_git_for_manifest
  Does-capture_git_for_manifest m =
      Does-if (not (is_some m.git_before)) _ _ (λ _. Does-pure none (λ t h. h))
        (λ _. Does-bind _ _ Does-capture_git_state (λ a. Does-pure _ (λ t h. h)))

  pub Does-verify_git_restored :
      (m : ApplyTransactionManifest) → Does P (verify_git_restored w m) (λ _. P) E
  unfolding verify_git_restored
  Does-verify_git_restored m = since m.git_before
    where
      since : (o : Option GitStateSnapshot) → Does P (git_since w o) (λ _. P) E
      since none = Does-pure _ (λ t h. h)
      since (some b) = Does-bind _ _ Does-capture_git_state (λ a. Does-pure _ (λ t h. h))

module _ (w : World) (q : IsQuiet w) {P : Tree → Type 0} {E : Tree → Type 0}
    (hp : (t : Tree) → P t → E t) where
  pub Does-capture_git_for_policy :
      (policy : ApplyGitPolicy) → Does P (capture_git_for_policy w policy) (λ _. P) E
  unfolding capture_git_for_policy
  Does-capture_git_for_policy policy =
      Does-bind _ _ (Does-attempt _ (Does-capture_git_state w q {E = P} (λ t h. h))) (by policy)
    where
      by :
          (policy : ApplyGitPolicy) (r : Result Failure GitStateSnapshot)
          → Does (Answers (λ _. P) P r) (by_policy w policy r) (λ _. P) E
      by policy (ok a) = Does-pure _ (λ t h. h)
      by optional (err e) = Does-pure none (λ t h. h)
      by require_clean (err e) = Does-raise _ _ hp
      by allow_dirty (err e) = Does-raise _ _ hp
