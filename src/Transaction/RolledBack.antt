-- ===== src/Transaction/RolledBack.antt =====
-- What `rollback_manifest` of crates/opticcode-tools/src/apply_transaction.rs does to the workspace.
use optic_code.FilePath.{FilePath}
use optic_code.Prelude.{
  All, Bool, Bool-cases, List, Option, Result, [], any, append-nil_left, append-nil_right, err,
  false, if◌then◌else◌, inl, inr, is_empty, not, ok, refl, some, true, ◌&&◌, ◌++◌, ◌==◌, ◌∷◌, ◌≡◌,
  ◌⊎◌,
}
use optic_code.Text.{Text, bytes, contains_text}
use optic_code.Transaction.Appends.{Does-transition}
use optic_code.Transaction.GitReads.{Does-verify_git_restored}
use optic_code.Transaction.InFlight.{IsDistinct, IsRestorable}
use optic_code.Transaction.Logic.{
  Answers, Does, Does-attempt, Does-bind, Does-gets, Does-if, Does-match, Does-pure, Does-weaken,
  IsQuiet,
}
use optic_code.Transaction.Machine.{Machine, Tree, World, pure}
use optic_code.Transaction.Model.{
  ApplyTransactionManifest, ApplyTransactionState, Failure, FileMutation, GitStateSnapshot,
  option_state_eq, rollback_failed, rollback_started, rolled_back,
}
use optic_code.Transaction.Reads.{shown}
use optic_code.Transaction.Restoring.{IsCollisionFree}
use optic_code.Transaction.Rollback.{
  failures_of, finish_rollback, git_after_rollback, is_false, result_from_manifest,
  rollback_manifest, start_rollback, with_git_verdict,
}
use optic_code.Transaction.Undone.{
  Does-restore_all, Recorded, Recorded-IsKnown, Recorded-IsRestored,
}

-- the state that a rollback ends in
final-cases :
    (errors : List Text) (b c : Bool) (final : ApplyTransactionState)
    → final ≡ (if (is_empty errors && b) && c then rolled_back else rollback_failed)
    → ((final ≡ rolled_back) × (errors ≡ [])) ⊎ (final ≡ rollback_failed)
final-cases [] true true final e = inl (e, refl)
final-cases [] true false final e = inr e
final-cases [] false c final e = inr e
final-cases (x ∷ errors) b c final e = inr e

module _ (w : World) (q : IsQuiet w) {P : Tree → Type 0} {E : Tree → Type 0}
    (manifest : ApplyTransactionManifest) (modified : List Text) (reason : Text) where
  Does-start_rollback : Does P (start_rollback w modified reason) (λ _. P) E
  unfolding start_rollback
  Does-start_rollback = Does-bind _ _ (Does-gets {Q = λ _. P} _ (λ s h. h)) (λ current.
      Does-if (current == some rollback_started) _ _ (λ _. Does-pure [] (λ t h. h))
        (λ _.
          Does-bind _ _ (Does-attempt _ (Does-transition w q {E = P} (λ t h. h) _ _ _ _ _)) either))
    where
      either :
          (r : Result Failure Unit)
          → Does
              (Answers (λ _. P) P r)
              (pure (failures_of "failed to journal rollback start: " r))
              (λ _. P)
              E
      either (ok a) = Does-pure _ (λ t h. h)
      either (err e) = Does-pure _ (λ t h. h)

  Does-git_after_rollback :
      (errors : List Text)
      → Does P (git_after_rollback w manifest errors) (λ v t. P t × (v.0 ≡ [] → errors ≡ [])) E
  unfolding git_after_rollback
  Does-git_after_rollback errors =
      Does-match _ _ _ (Does-verify_git_restored w q {E = P} (λ t h. h) manifest)
        (λ e. Does-pure _ (λ t h. (h, append-nil_left errors _)))
        (λ found. Does-pure _ (λ t h. (h, with_verdict found.0)))
    where
      with_verdict : (o : Option Bool) → with_git_verdict o errors ≡ [] → errors ≡ []
      with_verdict o h =
          elim (Bool-cases
            (is_false o && not (any (λ e. contains_text e (bytes "Git state")) errors))) [
              | inl e ↦ append-nil_left errors _ (rw e at h)
              | inr e ↦ rw e at h
            ]

  Does-finish_rollback :
      (operation : Bool) (restored errors : List Text) (git : Option Bool)
      (snapshot : Option GitStateSnapshot)
      → Does P
          (finish_rollback w manifest modified reason operation restored errors git snapshot)
          (λ r t.
            P t
            × (((r.final_state ≡ rolled_back) × (errors ≡ [])) ⊎ (r.final_state ≡ rollback_failed)))
          E
  unfolding finish_rollback
  Does-finish_rollback operation restored errors git snapshot =
      Does-bind _ _ (Does-attempt _ (Does-transition w q {E = P} (λ t h. h) _ _ _ _ _)) (λ r.
        Does-bind _ _ (Does-gets {Q = λ _. P} _ (kept r)) (λ duration.
          Does-pure _ (λ t h. (h, unfold result_from_manifest in final-cases errors _ _ _ refl))))
    where
      kept : (r : Result Failure Unit) (s : Machine) → Answers (λ _. P) P r s.tree → P s.tree
      kept (ok a) s h = h
      kept (err e) s h = h

module _ (w : World) (q : IsQuiet w) (free : IsCollisionFree w) (workspace : FilePath)
    (ms : List FileMutation) (distinct : IsDistinct ms) (manifest : ApplyTransactionManifest)
    (recorded : Recorded w ms manifest.files) where
  -- A rollback ends as rolled back, with every target as it was, or as failed.
  pub Does-rollback_manifest :
      (P : Tree → Type 0) {E : Tree → Type 0}
      → IsRestorable P workspace ms
      → (modified : List Text) (reason : Text) (operation : Bool)
      → Does P
          (rollback_manifest w workspace manifest modified reason operation)
          (λ r t.
            P t
            × (((r.final_state ≡ rolled_back)
                  × All (λ m. shown (t (workspace ++ m.path)) ≡ some m.expected_before) ms)
                ⊎ (r.final_state ≡ rollback_failed)))
          E
  unfolding rollback_manifest
  Does-rollback_manifest P h modified reason operation =
      Does-bind _ _ (Does-start_rollback w q {P = P} manifest modified reason) (λ started.
        Does-bind _ _
          (Does-restore_all w q free workspace ms distinct P h manifest.files
            (Recorded-IsKnown w q free workspace ms distinct ms manifest.files (λ m i. i) recorded))
          (λ restored.
            Does-bind _ _
              (Does-git_after_rollback w q manifest modified reason (started ++ restored.errors))
              (λ verdict.
                Does-weaken _
                  (Does-finish_rollback w q manifest modified reason operation restored.files
                    verdict.0 verdict.1 verdict.2)
                  (λ t k. k)
                  (λ r t k. (
                    k.0.0.0,
                    elim k.1 [
                      | inl e ↦ inl (
                        e.0,
                        Recorded-IsRestored w q free workspace ms distinct t ms manifest.files
                            (λ m i. i) recorded (k.0.0.1 (append-nil_right started _ (k.0.1 e.1))),
                      )
                      | inr e ↦ inr e
                    ],
                  ))
                  (λ t k. k))))
