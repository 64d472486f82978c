-- ===== src/Transaction/WholeRun.antt =====
-- The whole of `execute_apply_transaction` in crates/opticcode-tools/src/apply_transaction.rs, in a
-- workspace that nobody else writes to; its own calls may fail at any point, or all from some point on.
use mathlib.Core.Path.{subst}
use optic_code.FilePath
use optic_code.FilePath.{FilePath, path_eq}
use optic_code.Prelude.{
  Among, Among-All, List, Result, [], all, err, inl, inr, ok, refl, some, sym, ◌++◌, ◌∙◌, ◌∷◌, ◌≡◌,
  ◌⊎◌,
}
use optic_code.Transaction.Atomic.{Does-run_prepared, IsPrepared, Verdict}
use optic_code.Transaction.Execute.{execute_apply_transaction, run_prepared}
use optic_code.Transaction.InFlight.{InFlight, IsBetween}
use optic_code.Transaction.Logic.{Does, Does-bind, Does-weaken, Ends, Ends-ok, IsQuiet}
use optic_code.Transaction.Machine.{Machine, Tree, World}
use optic_code.Transaction.Model.{
  ApplyTransactionRequest, ApplyTransactionResult, ApplyTransactionState, Failure, FileMutation,
  committed, rollback_failed, rolled_back,
}
use optic_code.Transaction.Outside.{IsLockInside}
use optic_code.Transaction.Prepare.{PreparedTransaction}
use optic_code.Transaction.Preparing.{Does-prepare_transaction, IsPortable, IsReady, Outside}
use optic_code.Transaction.Reads.{shown}
use optic_code.Transaction.Restoring.{IsCollisionFree}
use optic_code.Transaction.Sorted.{Among-of_sort, StandFor, Stands}
use optic_code.Transaction.Targets.{validate_relative_path}

counterpart :
    (ms ns : List FileMutation)
    → StandFor ms ns
    → (m : FileMutation) → Among m ms
    → (n : FileMutation) × Among n ns × Stands m n
counterpart [] ns h m i = elim i [ ]
counterpart (a ∷ ms) [] h m i = elim h [ ]
counterpart (a ∷ ms) (n ∷ ns) h m (inl e) = (n, inl refl, subst (λ x. Stands x n) (sym e) h.0)
counterpart (a ∷ ms) (n ∷ ns) h m (inr i) =
    let (k, j, s) = counterpart ms ns h.1 m i in (k, inr j, s)

module _ (w : World) (q : IsQuiet w) (free : IsCollisionFree w) where
  -- In a workspace that nobody else writes to, and where no two contents have one fingerprint: once a
  -- transaction is prepared, its execution returns a result, whatever call fails, and it committed with
  -- the desired content at every target, or rolled back with the content from before at every target,
  -- or failed to roll back with one of the two at every target.
  pub run_prepared-returns :
      (ready : PreparedTransaction) (s : Machine)
      → IsPrepared w ready s.tree
      → (r : ApplyTransactionResult) × (s' : Machine) × (run_prepared w ready s ≡ (ok r, s'))
        × Verdict ready r.final_state s'.tree
  run_prepared-returns ready s known =
      returned (run_prepared w ready s) refl
        ((Does-run_prepared w q free s.tree ready known).at s refl)
    where
      Underway : Tree → Type 0
      Underway = InFlight s.tree ready.workspace ready.mutations

      returned :
          (out : Result Failure ApplyTransactionResult × Machine)
          → run_prepared w ready s ≡ out
          → Ends (λ r t. Underway t × Verdict ready r.final_state t) (λ _. ⊥) out
          → (r : ApplyTransactionResult) × (s' : Machine) × (run_prepared w ready s ≡ (ok r, s'))
            × Verdict ready r.final_state s'.tree
      returned (ok r, s') e h = (r, s', e, h.1)
      returned (err x, s') e h = elim h [ ]

  module _ (request : ApplyTransactionRequest) (s : Machine) (workspace : FilePath)
      (located : w.canonicalize s.tree request.workspace ≡ some workspace)
      (portable_paths : IsPortable w request.mutations) (inside : IsLockInside w workspace) where
    abbrev Ready : PreparedTransaction → Tree → Type 0
    Ready = IsReady w q s.tree request workspace located portable_paths inside

    abbrev Done : ApplyTransactionResult → Tree → Type 0
    Done r t =
        (ready : PreparedTransaction) × (before : Tree) × Ready ready before
        × InFlight before ready.workspace ready.mutations t
        × Verdict ready r.final_state t

    Does-execute :
        Does (λ t. t ≡ s.tree) (execute_apply_transaction w request) Done (Outside workspace s.tree)
    unfolding execute_apply_transaction
    Does-execute =
        Does-bind _ _
          (Does-prepare_transaction w q s.tree request workspace located portable_paths inside)
          (λ ready. record {
            at = λ s' k.
                (Does-weaken _ (Does-run_prepared w q free s'.tree ready k.prepared) (λ t e. e)
                    (λ r t h. (ready, s'.tree, k, h.0, h.1)) (λ t h. h)).at
                  s' refl;
          })

    -- the mutation that a prepared transaction has for one of the request
    prepared_for :
        (ready : PreparedTransaction) (before : Tree)
        → Ready ready before
        → (m : FileMutation) → Among m request.mutations
        → {p : FilePath} → validate_relative_path m.path ≡ ok p
        → (n : FileMutation) × Among n ready.mutations
          × (ready.workspace ++ n.path ≡ workspace ++ p)
          × (n.expected_before ≡ m.expected_before)
          × (n.desired_after ≡ m.desired_after)
    prepared_for ready before k m i {p} valid =
        let (n, j, st) =
          counterpart request.mutations k.sorted.normalized k.sorted.checked.stand m i in
        (
          n,
          subst (Among n) (sym k.sorted.same) (Among-of_sort k.sorted.normalized n j),
          cc (k.placed, same (sym st.0 ∙ valid)),
          st.1,
          st.2,
        )
      where
        same : {a b : FilePath} → ◌≡◌ {A = Result Failure FilePath} (ok a) (ok b) → a ≡ b
        same e = cc

    Verdict-at :
        (ready : PreparedTransaction) (final : ApplyTransactionState) (t : Tree)
        → Verdict ready final t
        → (n : FileMutation) → Among n ready.mutations
        → ((final ≡ committed) × (shown (t (ready.workspace ++ n.path)) ≡ some n.desired_after))
          ⊎ ((final ≡ rolled_back)
              × (shown (t (ready.workspace ++ n.path)) ≡ some n.expected_before))
          ⊎ ((final ≡ rollback_failed) × IsBetween n (t (ready.workspace ++ n.path)))
    Verdict-at ready final t (inl (e, all)) n i = inl (
      e,
      Among-All (λ m. shown (t (ready.workspace ++ m.path)) ≡ some m.desired_after) ready.mutations
          all n i,
    )
    Verdict-at ready final t (inr (inl (e, all))) n i = inr (
        inl (
          e,
          Among-All (λ m. shown (t (ready.workspace ++ m.path)) ≡ some m.expected_before)
              ready.mutations all n i,
        ))
    Verdict-at ready final t (inr (inr (e, all))) n i = inr (
        inr
          (e, Among-All (λ m. IsBetween m (t (ready.workspace ++ m.path))) ready.mutations all n i))

    -- In a workspace that nobody else writes to, whose lock file is no link that leads out of
    -- `.opticcode`, where no two contents have one fingerprint, and where every path of the request is
    -- read back as it was from its spelling in the manifest: an execution that returns a result has left
    -- every target of the request with the desired content if it committed, with the content from
    -- before if it rolled back, and with one of the two if the rollback failed.
    pub execute-IsAtomic :
        {r : ApplyTransactionResult} {s' : Machine}
        → execute_apply_transaction w request s ≡ (ok r, s')
        → (m : FileMutation) → Among m request.mutations
        → {p : FilePath} → validate_relative_path m.path ≡ ok p
        → ((r.final_state ≡ committed) × (shown (s'.tree (workspace ++ p)) ≡ some m.desired_after))
          ⊎ ((r.final_state ≡ rolled_back)
              × (shown (s'.tree (workspace ++ p)) ≡ some m.expected_before))
          ⊎ ((r.final_state ≡ rollback_failed) × IsBetween m (s'.tree (workspace ++ p)))
    execute-IsAtomic {r} {s'} ran m i {p} valid =
        let (ready, before, k, flight, verdict) =
          Ends-ok Done (Outside workspace s.tree) ran (Does-execute.at s refl) in
        let (n, j, place, old, new) = prepared_for ready before k m i valid in
        let at_n = Verdict-at ready r.final_state s'.tree verdict n j in
        rw (sym place, sym old, sym new) at_n
