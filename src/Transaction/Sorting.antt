-- ===== src/Transaction/Sorting.antt =====
-- The order and the checks of a transaction's mutations in crates/opticcode-tools/src/apply_transaction.rs:
-- `validate_and_sort_mutations`.
use optic_code.FilePath.{Component, FilePath, as_os_str, component_eq}
use optic_code.Prelude.{
  Bool, List, [], contains, false, if◌then◌else◌, true, ◌&&◌, ◌++◌, ◌==◌, ◌||◌, ◌∷◌,
}
use optic_code.Text.{Text, bytes, option_text_eq, text_eq, text_lt}
use optic_code.Transaction.Machine.{Op, World, lift, pure, raise_if, ◌>>=◌, ◌>>◌}
use optic_code.Transaction.Model.{FileMutation, precondition}
use optic_code.Transaction.Targets.{portable, validate_relative_path, validate_target_location}

-- `Path`'s order: by components, a shorter path first
abbrev rank : Component → Text
rank c = as_os_str c

unfoldable pub path_lt : FilePath → FilePath → Bool
path_lt p [] = false
path_lt [] (d ∷ q) = true
path_lt (c ∷ p) (d ∷ q) = text_lt (rank c) (rank d) || (c == d && path_lt p q)

-- `sort_by`, as a stable insertion sort
unfoldable pub insert_mutation : FileMutation → List FileMutation → List FileMutation
insert_mutation m [] = m ∷ []
insert_mutation m (n ∷ rest) =
    if path_lt n.path m.path then n ∷ insert_mutation m rest else m ∷ n ∷ rest

unfoldable pub sort_mutations : List FileMutation → List FileMutation
unfolding insert_mutation
sort_mutations [] = []
sort_mutations (m ∷ rest) = insert_mutation m (sort_mutations rest)

module _ (w : World) where
  -- the loop of `validate_and_sort_mutations`
  unfoldable pub normalized_mutations :
      FilePath → List Text → List FileMutation → Op (List FileMutation)
  normalized_mutations workspace seen [] = pure []
  normalized_mutations workspace seen (m ∷ rest) = do
    path ← lift (validate_relative_path m.path)
    validate_target_location w workspace path
    raise_if (contains seen (portable path)) precondition
        (bytes "duplicate transaction file: " ++ portable path)
    raise_if (m.expected_before == m.desired_after) precondition
        (bytes "transaction mutation has no content change: " ++ portable path)
    others ← normalized_mutations workspace (portable path ∷ seen) rest
    pure (record m { path = path } ∷ others)

  unfoldable pub validate_and_sort_mutations : FilePath → List FileMutation → Op (List FileMutation)
  validate_and_sort_mutations workspace mutations =
      normalized_mutations workspace [] mutations >>= λ normalized. pure (sort_mutations normalized)
