-- ===== src/Transaction/Recovery.antt =====
-- A rollback or a recovery of a transaction of crates/opticcode-tools/src/apply_transaction.rs after its
-- execution ended, in whatever state.
use optic_code.FilePath.{FilePath}
use optic_code.Prelude.{
  All, All-Among, Among-All, Bool, List, Option, [], false, inl, inr, none, not, ok, refl, some,
  true, ℕ, ◌++◌, ◌==◌, ◌≡◌, ◌⊎◌,
}
use optic_code.Text.{Text}
use optic_code.Transaction.Atomic.{Does-run_prepared, IsPrepared}
use optic_code.Transaction.Execute.{run_prepared}
use optic_code.Transaction.GitReads.{Does-verify_git_restored}
use optic_code.Transaction.InFlight.{IsBetween, IsDistinct}
use optic_code.Transaction.Inspect.{ApplyTransactionInspection, RunView, inspect_run_directory}
use optic_code.Transaction.Logic.{
  Does, Does-bind, Does-call, Does-gets, Does-given, Does-if, Does-lift, Does-modify, Does-pure,
  Does-raise, Does-raise_if, Does-weaken, Does-with_kind, Ends-both, Ends-ok, IsQuiet,
}
use optic_code.Transaction.Machine.{Machine, Tree, World}
use optic_code.Transaction.Model.{
  ApplyTransactionManifest, ApplyTransactionResult, ApplyTransactionState, FileMutation,
  rollback_failed, rolled_back, state_eq,
}
use optic_code.Transaction.Outside.{Does-acquire_lock, IsLockInside}
use optic_code.Transaction.Prepare.{PreparedTransaction}
use optic_code.Transaction.Reads.{Does-canonical, Does-located_at, shown}
use optic_code.Transaction.Rechecked.{Does-verify_manifest_files_restored}
use optic_code.Transaction.Recover.{
  already_rolled_back, inspect_apply_transaction, or_invalid, resume_journal, roll_back_from,
  roll_back_inspected, rollback_apply_transaction,
}
use optic_code.Transaction.Recovered.{
  Between, Between-IsLocal, Between-IsRestorable, inspected_manifest,
}
use optic_code.Transaction.Restoring.{IsCollisionFree}
use optic_code.Transaction.Rollback.{result_from_manifest}
use optic_code.Transaction.RolledBack.{Does-rollback_manifest}
use optic_code.Transaction.TargetPaths.{IsTarget}
use optic_code.Transaction.Undone.{Recorded}

module _ (w : World) (q : IsQuiet w) (free : IsCollisionFree w) (observe : Machine → RunView)
    (manifest : ApplyTransactionManifest)
    (reads : (s : Machine) → (observe s).manifest_json ≡ ok manifest) where
  Does-inspect :
      {P : Tree → Type 0} {E : Tree → Type 0}
      → ((t : Tree) → P t → E t)
      → (workspace : FilePath) (id : Text)
      → Does P
          (inspect_apply_transaction w observe workspace id)
          (λ i t. P t × ((x : ApplyTransactionManifest) → i.manifest ≡ some x → x ≡ manifest))
          E
  unfolding inspect_apply_transaction inspect_run_directory
  Does-inspect {P} hp p id = Does-bind _ _ (Does-lift {Q = λ _. P} _ (λ t h a e. h) hp) (λ _.
      Does-bind _ _ (Does-with_kind _ _ _ (Does-canonical w q hp p)) (λ workspace.
        Does-bind _ _ (Does-call w q hp) (λ _.
          Does-bind _ _
            (Does-gets {Q = λ v t. P t × (v.manifest_json ≡ ok manifest)} _ (λ s h. (h, reads s)))
            (λ view. Does-given _ _ (λ e.
              Does-bind _ _ (Does-raise_if {Q = λ _. P} _ _ _ (λ d t h. h) hp) (λ _.
                Does-pure _ (λ t h. (
                  h,
                  λ x f.
                      inspected_manifest w id workspace view view.run_entry view.manifest_entry e f,
                ))))))))

  Does-or_invalid :
      {A : Type 0} {P : Tree → Type 0} {E : Tree → Type 0}
      → ((t : Tree) → P t → E t)
      → (message : Text) (o : Option A)
      → Does P (or_invalid message o) (λ a t. P t × (o ≡ some a)) E
  Does-or_invalid hp message none = Does-raise _ _ hp
  Does-or_invalid hp message (some a) = Does-pure a (λ t h. (h, refl))

  module _ (workspace : FilePath) (ms : List FileMutation) (distinct : IsDistinct ms)
      (targets : All (λ m. IsTarget m.path) ms) (recorded : Recorded w ms manifest.files) where
    -- a rollback of which the result is known
    abbrev RolledOrFailed : ApplyTransactionResult → Tree → Type 0
    RolledOrFailed r t =
        ((r.final_state ≡ rolled_back)
          × All (λ m. shown (t (workspace ++ m.path)) ≡ some m.expected_before) ms)
        ⊎ ((r.final_state ≡ rollback_failed) × All (λ m. IsBetween m (t (workspace ++ m.path))) ms)

    keep : (t : Tree) → Between workspace ms t → Between workspace ms t
    keep t h = h

    Does-already_rolled_back :
        Does
          (Between workspace ms)
          (already_rolled_back w workspace manifest)
          RolledOrFailed
          (Between workspace ms)
    unfolding already_rolled_back
    Does-already_rolled_back =
        Does-bind _ _
          (Does-verify_manifest_files_restored w q free workspace (Between workspace ms)
            {E = Between workspace ms} keep ms manifest.files recorded)
          (λ b.
            Does-bind _ _
              (Does-raise_if {Q = λ _. AllRestored} _ _ _ (λ d t h. h.1 (was_true b d))
                (λ t h. h.0))
              (λ _.
                Does-weaken {Q' = RolledOrFailed} _
                  (Does-bind {Q = λ _. AllRestored} {E = AllRestored} _ _
                    (Does-verify_git_restored w q (λ t h. h) manifest)
                    (λ git.
                      Does-bind _ _
                        (Does-raise_if {Q = λ _. AllRestored} _ _ _ (λ d t h. h) (λ t h. h))
                        (λ _. Does-pure _ (λ t h. unfold result_from_manifest in inl (refl, h)))))
                  (λ t h. h) (λ r t h. h)
                  (λ t h m i. inl (
                    Among-All (λ m. shown (t (workspace ++ m.path)) ≡ some m.expected_before) ms h m
                      i))))
      where
        AllRestored : Tree → Type 0
        AllRestored t = All (λ m. shown (t (workspace ++ m.path)) ≡ some m.expected_before) ms

        was_true : (b : Bool) → not b ≡ false → b ≡ true
        was_true true e = refl
        was_true false e = cc

    Does-roll_back_from :
        (id reason : Text) (final : ApplyTransactionState) (n : ℕ)
        → Does
            (Between workspace ms)
            (roll_back_from w observe workspace id reason manifest final n)
            RolledOrFailed
            (Between workspace ms)
    unfolding roll_back_from resume_journal
    Does-roll_back_from id reason final n =
        Does-if (final == rolled_back) _ _ (λ _. Does-already_rolled_back)
          (λ _.
            Does-bind _ _ (Does-raise_if {Q = λ _. Between workspace ms} _ _ _ (λ d t h. h) keep)
              (λ _.
                Does-bind _ _
                  (Does-raise_if {Q = λ _. Between workspace ms} _ _ _ (λ d t h. h) keep)
                  (λ _.
                    Does-bind _ _ (Does-modify {Q = λ _. Between workspace ms} _ (λ s h. h)) (λ _.
                      Does-weaken _
                        (Does-rollback_manifest w q free workspace ms distinct manifest recorded
                          (Between workspace ms) (Between-IsRestorable workspace ms distinct) []
                          reason true)
                        keep ended keep))))
      where
        ended :
            (r : ApplyTransactionResult) (t : Tree)
            → Between workspace ms t
              × (((r.final_state ≡ rolled_back)
                    × All (λ m. shown (t (workspace ++ m.path)) ≡ some m.expected_before) ms)
                  ⊎ (r.final_state ≡ rollback_failed))
            → RolledOrFailed r t
        ended r t (h, inl e) = inl e
        ended r t (h, inr e) = inr (e, All-Among ms h)

    Does-roll_back_inspected :
        (id reason : Text) (i : ApplyTransactionInspection)
        → ((x : ApplyTransactionManifest) → i.manifest ≡ some x → x ≡ manifest)
        → Does
            (Between workspace ms)
            (roll_back_inspected w observe workspace id reason i)
            RolledOrFailed
            (Between workspace ms)
    unfolding roll_back_inspected
    Does-roll_back_inspected id reason i known =
        Does-bind _ _ (Does-raise_if {Q = λ _. Between workspace ms} _ _ _ (λ d t h. h) keep) (λ _.
          Does-bind _ _ (Does-raise_if {Q = λ _. Between workspace ms} _ _ _ (λ d t h. h) keep)
            (λ _. Does-bind _ _ (Does-or_invalid keep _ i.manifest) (λ x. Does-given _ _ (λ e.
              Does-bind _ _ (Does-or_invalid keep _ i.final_state) (λ final.
                Does-given _ _ (λ _. rw (known x e) (Does-roll_back_from id reason final _)))))))

    Does-rollback_apply_transaction :
        (p : FilePath) (id reason : Text)
        → ((t : Tree) → w.canonicalize t p ≡ some workspace)
        → IsLockInside w workspace
        → Does
            (Between workspace ms)
            (rollback_apply_transaction w observe p id reason)
            RolledOrFailed
            (Between workspace ms)
    unfolding rollback_apply_transaction
    Does-rollback_apply_transaction p id reason located inside =
        Does-bind _ _ (Does-lift {Q = λ _. Between workspace ms} _ (λ t h a e. h) keep) (λ _.
          Does-bind _ _ (Does-with_kind _ _ _ (Does-located_at w q keep p workspace located)) (λ r.
            Does-given _ _ (λ e. rw e (
              Does-bind _ _
                (Does-acquire_lock w q keep workspace
                  (Between-IsLocal workspace ms distinct targets) inside)
                (λ _.
                  Does-bind _ _ (Does-inspect keep workspace id)
                    (λ i. Does-given _ _ (λ known. Does-roll_back_inspected id reason i known)))))))

module _ (v w : World) (qv : IsQuiet v) (qw : IsQuiet w) (fv : IsCollisionFree v)
    (fw : IsCollisionFree w) (ready : PreparedTransaction) (s : Machine)
    (known : IsPrepared v ready s.tree) (recorded : Recorded w ready.mutations ready.manifest.files)
    (targets : All (λ m. IsTarget m.path) ready.mutations) where
  left-Between : Between ready.workspace ready.mutations (run_prepared v ready s).1.tree
  left-Between = Ends-both (Between ready.workspace ready.mutations) (run_prepared v ready s) (
      (Does-weaken {E' = Between ready.workspace ready.mutations} _
          (Does-run_prepared v qv fv s.tree ready known) (λ t e. e) (λ r t h. h.0.between)
          (λ t h. h)).at
        s refl)

  -- In a workspace that nobody else writes to, whose lock file is no link that leads out of
  -- `.opticcode`, and where no two contents have one fingerprint: after an execution of a prepared transaction in which any calls failed, a rollback or a recovery that reads
  -- the manifest of the transaction and returns a result has put back the content from before at every
  -- target, or reports a failed rollback with the content from before or the desired one at every
  -- target.
  pub rollback-after_run :
      (observe : Machine → RunView)
      → ((s : Machine) → (observe s).manifest_json ≡ ok ready.manifest)
      → (p : FilePath) → ((t : Tree) → w.canonicalize t p ≡ some ready.workspace)
      → IsLockInside w ready.workspace
      → (id reason : Text) {r : ApplyTransactionResult} {s' : Machine}
      → rollback_apply_transaction w observe p id reason (run_prepared v ready s).1 ≡ (ok r, s')
      → ((r.final_state ≡ rolled_back)
          × All
              (λ m. shown (s'.tree (ready.workspace ++ m.path)) ≡ some m.expected_before)
              ready.mutations)
        ⊎ ((r.final_state ≡ rollback_failed)
            × All (λ m. IsBetween m (s'.tree (ready.workspace ++ m.path))) ready.mutations)
  rollback-after_run observe reads p located inside id reason {r} {s'} ran =
      Ends-ok
        (RolledOrFailed w qw fw observe ready.manifest reads ready.workspace ready.mutations
          known.distinct targets recorded)
        (Between ready.workspace ready.mutations) ran
        ((Does-rollback_apply_transaction w qw fw observe ready.manifest reads ready.workspace
            ready.mutations known.distinct targets recorded p id reason located inside).at
          (run_prepared v ready s).1 left-Between)
