-- ===== src/Transaction/Execute.antt =====
-- `execute_apply_transaction` of crates/opticcode-tools/src/apply_transaction.rs: prepared, applied,
-- verified and committed; on any error behind the preparation, rolled back.
use optic_code.FilePath.{FilePath}
use optic_code.Prelude.{Bool, List, Result, [], err, false, none, ok, true, ℕ, ◌∷◌}
use optic_code.Text.{Text, bytes}
use optic_code.Transaction.Git.{capture_git_for_manifest, verify_git_state_for_commit}
use optic_code.Transaction.Journal.{transition}
use optic_code.Transaction.Machine.{
  Op, World, at_first, attempt, check_fault, gets, lift, on_result, pure, ◌>>=◌, ◌>>◌,
}
use optic_code.Transaction.Model.{
  ApplyTransactionFile, ApplyTransactionRequest, ApplyTransactionResult, Failure, FileMutation,
  after_all_target_writes, after_first_target_write, after_prepared, applied, applying,
  before_finalization, before_first_target_write, committed, during_finalization, finalizing,
}
use optic_code.Transaction.Mutations.{apply_mutation, verify_mutations_applied}
use optic_code.Transaction.Prepare.{PreparedTransaction, prepare_transaction}
use optic_code.Transaction.Rollback.{result_from_manifest, rollback_manifest}
use optic_code.Transaction.Targets.{portable}

-- the files that were modified, kept when a later one fails
pub record Applied : Type 0 where
  pub modified : List Text
  pub outcome : Result Failure Unit

module _ (w : World) where
  unfoldable pub apply_one : FilePath → Bool → FileMutation → ApplyTransactionFile → Op Unit
  apply_one workspace first m entry = do
    at_first w first before_first_target_write
    apply_mutation w workspace m entry

  abbrev index_out_of_bounds : Failure
  index_out_of_bounds = record { error_kind = none; message = bytes "index out of bounds" }

  -- the loop over the mutations and their records
  unfoldable pub apply_each :
      FilePath → Bool → List FileMutation → List ApplyTransactionFile → Op Applied
  apply_each workspace first [] entries = pure (record { modified = []; outcome = ok tt })
  apply_each workspace first (m ∷ rest) [] =
      pure (record { modified = []; outcome = err index_out_of_bounds })
  apply_each workspace first (m ∷ rest) (entry ∷ entries) = do
    answer ← attempt (apply_one workspace first m entry)
    on_result answer (λ e. pure (record { modified = []; outcome = err e }))
        (λ _. do
          fault ← attempt (at_first w first after_first_target_write)
          on_result fault (λ e. pure (record { modified = portable m.path ∷ []; outcome = err e }))
              (λ _. do
                others ← apply_each workspace false rest entries
                pure (record others { modified = portable m.path ∷ others.modified })))

  -- the start of the closure, up to the first target
  unfoldable pub start_applying : Op Unit
  start_applying = do
    check_fault w after_prepared
    transition w applying (bytes "target file application started") [] [] none

  -- the closure behind the loop, up to the commit
  unfoldable pub finalize : PreparedTransaction → List Text → Op Unit
  finalize ready modified = do
    check_fault w after_all_target_writes
    verify_mutations_applied w ready.workspace ready.mutations
    transition w applied (bytes "all planned target files were applied and verified") modified []
        none
    check_fault w before_finalization
    transition w finalizing (bytes "transaction finalization started") modified [] none
    check_fault w during_finalization
    git_after ← capture_git_for_manifest w ready.manifest
    lift (verify_git_state_for_commit w ready.manifest git_after)
    verify_mutations_applied w ready.workspace ready.mutations
    transition w committed (bytes "transaction committed") modified [] git_after

  -- the whole closure, with the files that it modified
  unfoldable pub apply_all : PreparedTransaction → Op Applied
  apply_all ready = do
    started ← attempt start_applying
    on_result started (λ e. pure (record { modified = []; outcome = err e }))
        (λ _. do
          loop ← apply_each ready.workspace true ready.mutations ready.manifest.files
          on_result loop.outcome (λ _. pure loop)
              (λ _. do
                outcome ← attempt (finalize ready loop.modified)
                pure (record { modified = loop.modified; outcome = outcome })))

  -- the result of a commit
  abbrev pub committed_result : PreparedTransaction → List Text → ℕ → ApplyTransactionResult
  committed_result ready modified duration =
      result_from_manifest ready.manifest true committed false none modified [] [] [] none duration

  -- the final `match`
  unfoldable pub conclude : PreparedTransaction → Applied → Op ApplyTransactionResult
  conclude ready ran =
      on_result ran.outcome
        (λ e. rollback_manifest w ready.workspace ready.manifest ran.modified e.message false)
        (λ _. do
          duration ← gets (λ s. w.elapsed_ms s.tick)
          pure (committed_result ready ran.modified duration))

  -- what follows the preparation
  unfoldable pub run_prepared : PreparedTransaction → Op ApplyTransactionResult
  run_prepared ready = apply_all ready >>= conclude ready

  unfoldable pub execute_apply_transaction : ApplyTransactionRequest → Op ApplyTransactionResult
  execute_apply_transaction request = prepare_transaction w request >>= run_prepared
