-- ===== src/Transaction/Listing.antt =====
-- `list_apply_transactions` of crates/opticcode-tools/src/apply_transaction.rs: the transactions of a
-- workspace, each inspected, sorted by their identifiers.
use optic_code.FilePath.{FilePath}
use optic_code.Host.{Metadata}
use optic_code.Prelude.{
  Bool, List, Result, [], err, if◌then◌else◌, is_ok, map_ok, not, ok, ◌>>=◌, ◌||◌, ◌∷◌,
}
use optic_code.Text.{Text, text_lt}
use optic_code.Transaction.Directories.{validate_transaction_id}
use optic_code.Transaction.Inspect.{
  ApplyTransactionInspection, RunView, inspect_run_directory, invalid_inspection,
}
use optic_code.Transaction.Machine.{World}
use optic_code.Transaction.Model.{Failure}

-- an entry of the runs directory: its name, `symlink_metadata` of it, and what an inspection reads
pub record RunEntry : Type 0 where
  pub name : Text
  pub metadata : Result Failure Metadata
  pub view : RunView

-- what the listing asks of the file system
pub record RunsView : Type 0 where
  pub workspace : Result Failure FilePath
  pub runs_is_dir : Bool
  pub entries : Result Failure (List (Result Failure RunEntry))

-- by identifier, as a stable insertion sort
unfoldable pub insert_inspection :
    ApplyTransactionInspection → List ApplyTransactionInspection → List ApplyTransactionInspection
insert_inspection x [] = x ∷ []
insert_inspection x (y ∷ rest) =
    if text_lt y.transaction_id x.transaction_id then y ∷ insert_inspection x rest else x ∷ y ∷ rest

unfoldable pub sort_inspections : List ApplyTransactionInspection → List ApplyTransactionInspection
sort_inspections [] = []
sort_inspections (x ∷ rest) = insert_inspection x (sort_inspections rest)

abbrev pub is_listed : Metadata → Bool
is_listed m = m.is_dir || m.is_symlink

module _ (w : World) where
  -- an entry that is listed
  unfoldable pub inspect_run : FilePath → RunEntry → ApplyTransactionInspection
  inspect_run workspace entry =
      if is_ok (validate_transaction_id entry.name)
      then inspect_run_directory w entry.name workspace entry.view
      else invalid_inspection w entry.name "transaction directory has an invalid identifier"

  -- the loop over the entries
  unfoldable pub inspect_runs :
      FilePath → List (Result Failure RunEntry) → Result Failure (List ApplyTransactionInspection)
  inspect_runs workspace [] = ok []
  inspect_runs workspace (err e ∷ rest) = err e
  inspect_runs workspace (ok entry ∷ rest) =
      let others = inspect_runs workspace rest in
      do
        metadata ← entry.metadata
        if is_listed metadata then map_ok (λ l. inspect_run workspace entry ∷ l) others else others

  unfoldable pub list_apply_transactions :
      RunsView → Result Failure (List ApplyTransactionInspection)
  list_apply_transactions view = do
    workspace ← view.workspace
    if not view.runs_is_dir then ok [] else do
      entries ← view.entries
      found ← inspect_runs workspace entries
      ok (sort_inspections found)
