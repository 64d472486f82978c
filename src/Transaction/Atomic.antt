-- ===== src/Transaction/Atomic.antt =====
-- All or nothing: what the execution of a prepared transaction of crates/opticcode-tools/src/
-- apply_transaction.rs leaves in the workspace.
use optic_code.FilePath.{FilePath}
use optic_code.Prelude.{
  All, All-Among, Among, Bool, List, Result, [], err, false, inl, inr, ok, refl, some, true, ◌++◌,
  ◌∷◌, ◌≡◌, ◌⊎◌,
}
use optic_code.Text.{Text}
use optic_code.Transaction.Appends.{Does-transition}
use optic_code.Transaction.Applying.{Does-apply_mutation}
use optic_code.Transaction.Execute.{
  Applied, apply_all, apply_each, apply_one, conclude, finalize, run_prepared, start_applying,
}
use optic_code.Transaction.GitReads.{Does-capture_git_for_manifest}
use optic_code.Transaction.InFlight.{
  InFlight, InFlight-IsModeBlind, InFlight-IsRestorable, InFlight-desires, IsBetween, IsDistinct,
}
use optic_code.Transaction.Logic.{
  Answers, Does, Does-at_first, Does-attempt, Does-bind, Does-check_fault, Does-gets, Does-lift,
  Does-match, Does-on_result, Does-pure, Does-raise_if, Does-weaken, IsQuiet,
}
use optic_code.Transaction.Machine.{Tree, World}
use optic_code.Transaction.Model.{
  ApplyTransactionFile, ApplyTransactionResult, ApplyTransactionState, Failure, FileMutation,
  committed, rollback_failed, rolled_back,
}
use optic_code.Transaction.Mutations.{verify_mutations_applied}
use optic_code.Transaction.Prepare.{PreparedTransaction}
use optic_code.Transaction.Reads.{Does-read_validated_target, Read, matched_content, shown}
use optic_code.Transaction.Restoring.{IsCollisionFree}
use optic_code.Transaction.Rollback.{result_from_manifest}
use optic_code.Transaction.RolledBack.{Does-rollback_manifest}
use optic_code.Transaction.Undone.{Recorded}

module _ (w : World) (q : IsQuiet w) where
  -- A verification that returns has read the desired content at every target.
  pub Does-verify_mutations_applied :
      (P : Tree → Type 0) {E : Tree → Type 0}
      → ((t : Tree) → P t → E t)
      → (workspace : FilePath) (ms : List FileMutation)
      → Does P
          (verify_mutations_applied w workspace ms)
          (λ _ t. P t × All (λ m. shown (t (workspace ++ m.path)) ≡ some m.desired_after) ms)
          E
  unfolding verify_mutations_applied
  Does-verify_mutations_applied P hp workspace [] = Does-pure tt (λ t h. (h, tt))
  Does-verify_mutations_applied P hp workspace (m ∷ ms) =
      Does-bind _ _ (Does-read_validated_target w q hp workspace m.path) (λ c.
        Does-bind _ _ (Does-raise_if _ _ _ (matched_content _ _) (λ t h. hp t h.0)) (λ _.
          Does-weaken _
            (Does-verify_mutations_applied (Read P (workspace ++ m.path) m.desired_after)
              (λ t h. hp t h.0) workspace ms)
            (λ t h. h) (λ a t h. (h.0.0, (h.0.1, h.1))) (λ t h. h)))

  Does-finalize :
      (P : Tree → Type 0) (ready : PreparedTransaction) (modified : List Text)
      → Does P
          (finalize w ready modified)
          (λ _ t.
            P t
            × All
                (λ m. shown (t (ready.workspace ++ m.path)) ≡ some m.desired_after)
                ready.mutations)
          P
  unfolding finalize
  Does-finalize P ready modified = Does-bind _ _ (Does-check_fault w q hp _) (λ _.
      Does-bind _ _
        (Does-weaken _ (Does-verify_mutations_applied P {E = P} hp _ _) hp (λ a t h. h.0) hp)
        (λ _. Does-bind _ _ (Does-transition w q hp _ _ _ _ _) (λ _.
          Does-bind _ _ (Does-check_fault w q hp _) (λ _.
            Does-bind _ _ (Does-transition w q hp _ _ _ _ _) (λ _.
              Does-bind _ _ (Does-check_fault w q hp _) (λ _.
                Does-bind _ _ (Does-capture_git_for_manifest w q hp _) (λ git.
                  Does-bind _ _ (Does-lift {Q = λ _. P} _ (λ t h a e. h) hp) (λ _.
                    Does-bind _ _ (Does-verify_mutations_applied P {E = P} hp _ _)
                      (λ _. Does-transition w q (λ t h. h.0) _ _ _ _ _)))))))))
    where
      hp : (t : Tree) → P t → P t
      hp t h = h

module _ (w : World) (q : IsQuiet w) (before : Tree) (workspace : FilePath) (ms : List FileMutation)
    (distinct : IsDistinct ms) where
  Does-apply_one :
      (first : Bool) (m : FileMutation) (e : ApplyTransactionFile)
      → Among m ms
      → Does
          (InFlight before workspace ms)
          (apply_one w workspace first m e)
          (λ _. InFlight before workspace ms)
          (InFlight before workspace ms)
  unfolding apply_one
  Does-apply_one first m e im = Does-bind _ _ (Does-at_first w q (λ t h. h) first _) (λ _.
      Does-weaken _
        (Does-apply_mutation w q (λ t h. h) (λ t h. h) workspace m e
          (InFlight-IsModeBlind workspace ms distinct before m im)
          (InFlight-desires workspace ms distinct before m im))
        (λ t h. h) (λ a t h. h.0) (λ t h. h))

  Does-apply_each :
      {E : Tree → Type 0} (first : Bool) (sub : List FileMutation) (es : List ApplyTransactionFile)
      → ((m : FileMutation) → Among m sub → Among m ms)
      → Does
          (InFlight before workspace ms)
          (apply_each w workspace first sub es)
          (λ _. InFlight before workspace ms)
          E
  unfolding apply_each
  Does-apply_each first [] es inside = Does-pure _ (λ t h. h)
  Does-apply_each first (m ∷ sub) [] inside = Does-pure _ (λ t h. h)
  Does-apply_each first (m ∷ sub) (e ∷ es) inside =
      Does-match _ _ _ (Does-apply_one first m e (inside m (inl refl)))
        (λ x. Does-pure _ (λ t h. h))
        (λ _.
          Does-match _ _ _ (Does-at_first w q {E = InFlight before workspace ms} (λ t h. h) first _)
            (λ x. Does-pure _ (λ t h. h))
            (λ _.
              Does-bind _ _ (Does-apply_each false sub es (λ a ia. inside a (inr ia)))
                (λ others. Does-pure _ (λ t h. h))))

-- What a preparation establishes: the mutations are at distinct targets, the records of the manifest
-- describe them in their order, and every target has the content that its mutation expects.
pub record IsPrepared (w : World) (ready : PreparedTransaction) (t : Tree) : Type 0 where
  pub distinct : IsDistinct ready.mutations
  pub recorded : Recorded w ready.mutations ready.manifest.files
  pub expected :
      (m : FileMutation)
      → Among m ready.mutations
      → shown (t (ready.workspace ++ m.path)) ≡ some m.expected_before

-- The verdict of a result on the targets of a transaction.
abbrev pub Verdict : PreparedTransaction → ApplyTransactionState → Tree → Type 0
Verdict ready final t =
    ((final ≡ committed)
      × All (λ m. shown (t (ready.workspace ++ m.path)) ≡ some m.desired_after) ready.mutations)
    ⊎ ((final ≡ rolled_back)
        × All (λ m. shown (t (ready.workspace ++ m.path)) ≡ some m.expected_before) ready.mutations)
    ⊎ ((final ≡ rollback_failed)
        × All (λ m. IsBetween m (t (ready.workspace ++ m.path))) ready.mutations)

module _ (w : World) (q : IsQuiet w) (free : IsCollisionFree w) (before : Tree)
    (ready : PreparedTransaction) (known : IsPrepared w ready before) where
  abbrev Underway : Tree → Type 0
  Underway = InFlight before ready.workspace ready.mutations

  abbrev Desired : Tree → Type 0
  Desired t =
      All (λ m. shown (t (ready.workspace ++ m.path)) ≡ some m.desired_after) ready.mutations

  Does-start_applying : Does Underway (start_applying w) (λ _. Underway) Underway
  unfolding start_applying
  Does-start_applying =
      Does-bind _ _ (Does-check_fault w q (λ t h. h) _)
        (λ _. Does-transition w q (λ t h. h) _ _ _ _ _)

  Does-apply_all :
      {E : Tree → Type 0}
      → Does Underway (apply_all w ready) (λ r t. Underway t × (r.outcome ≡ ok tt → Desired t)) E
  unfolding apply_all
  Does-apply_all =
      Does-match _ _ _ Does-start_applying (λ e. Does-pure _ (λ t h. (h, λ c. cc)))
        (λ _.
          Does-bind _ _
            (Does-apply_each w q before ready.workspace ready.mutations known.distinct true
              ready.mutations ready.manifest.files (λ m i. i))
            (λ loop.
              Does-on_result loop.outcome _ _ (λ e stopped. Does-pure _ (λ t h. (h, λ c. cc)))
                (λ _ _.
                  Does-bind _ _ (Does-attempt _ (Does-finalize w q Underway ready loop.modified))
                    (λ r. Does-pure _ (finished r)))))
    where
      finished :
          (r : Result Failure Unit) (t : Tree)
          → Answers (λ _ t. Underway t × Desired t) Underway r t
          → Underway t × (r ≡ ok tt → Desired t)
      finished (ok a) t h = (h.0, λ _. h.1)
      finished (err e) t h = (h, λ c. cc)

  Does-conclude :
      (ran : Applied) {E : Tree → Type 0}
      → Does
          (λ t. Underway t × (ran.outcome ≡ ok tt → Desired t))
          (conclude w ready ran)
          (λ r t. Underway t × Verdict ready r.final_state t)
          E
  unfolding conclude
  Does-conclude ran =
      Does-on_result ran.outcome _ _
        (λ e _.
          Does-weaken _
            (Does-rollback_manifest w q free ready.workspace ready.mutations known.distinct
              ready.manifest known.recorded Underway
              (InFlight-IsRestorable ready.workspace ready.mutations known.distinct before) _ _ _)
            (λ t h. h.0) (λ r t h. (h.0, rolled r t h)) (λ t h. h))
        (λ _ done.
          Does-bind _ _ (Does-gets {Q = λ _ t. Underway t × Desired t} _ (λ s h. (h.0, h.1 done)))
            (λ duration.
              Does-pure _ (λ t h. (h.0, unfold result_from_manifest in inl (refl, h.1)))))
    where
      rolled :
          (r : ApplyTransactionResult) (t : Tree)
          → Underway t
            × (((r.final_state ≡ rolled_back)
                  × All
                      (λ m. shown (t (ready.workspace ++ m.path)) ≡ some m.expected_before)
                      ready.mutations)
                ⊎ (r.final_state ≡ rollback_failed))
          → Verdict ready r.final_state t
      rolled r t (h, inl e) = inr (inl e)
      rolled r t (h, inr e) = inr (inr (e, All-Among ready.mutations h.between))

  pub Does-run_prepared :
      {E : Tree → Type 0}
      → Does
          (λ t. t ≡ before)
          (run_prepared w ready)
          (λ r t. Underway t × Verdict ready r.final_state t)
          E
  unfolding run_prepared
  Does-run_prepared =
      Does-bind _ _
        (Does-weaken _ Does-apply_all
          (λ t e.
            rw e (record { untouched = λ p _. refl; between = λ m i. inl (known.expected m i) }))
          (λ r t h. h) (λ t h. h))
        (λ ran. Does-conclude ran)
