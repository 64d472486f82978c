-- ===== src/Transaction/Targets.antt =====
-- The checks on a target of crates/opticcode-tools/src/apply_transaction.rs: its path, the entries on
-- the way to it, and its content.
use optic_code.FilePath
use optic_code.Approval.Binding.{normalized}
use optic_code.FilePath.{
  Component, FilePath, as_os_str, cur_dir, is_absolute, parent, parent_dir, root_dir, to_text,
}
use optic_code.Prelude.{
  Bool, Option, Result, String, [], any, err, false, if◌then◌else◌, is_empty, none, not, ok, some,
  true, ◌++◌, ◌==◌, ◌||◌, ◌∷◌,
}
use optic_code.Text.{Text, bytes, forward_slashes, text_eq}
use optic_code.Transaction.Machine.{
  Node, Op, World, attempt, call, context, directory, gets, lift, link, metadata, missing, pure,
  raise, raise_if, regular, special, symlink_metadata, with_kind, ◌>>=◌, ◌>>◌,
}
use optic_code.Transaction.Model.{Content, Failure, precondition, transaction_error}
use optic_code.Worktree.{resolved}

abbrev pub about : String → FilePath → Text
about message p = bytes message ++ to_text p

abbrev is_curdir : Component → Bool
is_curdir cur_dir = true
is_curdir _ = false

abbrev escapes : Component → Bool
escapes root_dir = true
escapes parent_dir = true
escapes _ = false

-- the loop over the components: `.` is dropped, `..` and the root are refused
unfoldable pub normalized_parts : FilePath → Option FilePath
normalized_parts [] = some []
normalized_parts (c ∷ rest) = if escapes c then none else elim (normalized_parts rest) [
  | none ↦ none
  | some parts ↦ some (if is_curdir c then parts else c ∷ parts)
]

abbrev pub metadata_name : Text
metadata_name = bytes ".opticcode"

abbrev pub is_reserved : FilePath → Bool
is_reserved p = is_empty p || any (λ c. as_os_str c == metadata_name) p

unfoldable pub validate_relative_path : FilePath → Result Failure FilePath
unfolding normalized_parts
validate_relative_path p =
    if is_empty p || is_absolute p
    then err (
        transaction_error precondition
          (about "transaction path must be a non-empty relative path: " p))
    else elim (normalized_parts p) [
      | none ↦
          err (transaction_error precondition (about "transaction path escapes its workspace: " p))
      | some normalized ↦
          if is_reserved normalized
          then err
              (transaction_error precondition (about "transaction path is reserved or empty: " p))
          else ok normalized
    ]

-- the `match` on an entry of the way, where `is_target` holds of the last one
unfoldable pub check_entry : FilePath → Bool → Node → Op Unit
check_entry current is_target missing =
    raise_if (not is_target) precondition
      (about "transaction target parent must already exist: " current)
check_entry current is_target link =
    raise precondition (about "transaction path contains a symlink or reparse point: " current)
check_entry current is_target directory =
    raise_if is_target precondition
      (about "transaction path component has an invalid type: " current)
check_entry current is_target special =
    raise precondition (about "transaction path component has an invalid type: " current)
check_entry current is_target (regular _ _) =
    raise_if (not is_target) precondition
      (about "transaction path component has an invalid type: " current)

abbrev is_directory : Node → Bool
is_directory directory = true
is_directory _ = false

-- `path_to_portable_string`
abbrev pub portable : FilePath → Text
portable p = forward_slashes (to_text p)

-- all but the last component, behind a base
abbrev pub parent_below : FilePath → FilePath → FilePath
parent_below base [] = base
parent_below base (c ∷ []) = base
parent_below base (c ∷ d ∷ rest) = parent_below (base ++ c ∷ []) (d ∷ rest)

abbrev pub file_content : Node → Op Text
file_content (regular content _) = pure content
file_content missing = lift (err (record { error_kind = none; message = bytes "not a file" }))
file_content directory = lift (err (record { error_kind = none; message = bytes "not a file" }))
file_content link = lift (err (record { error_kind = none; message = bytes "not a file" }))
file_content special = lift (err (record { error_kind = none; message = bytes "not a file" }))

abbrev pub resolved_or_raise : FilePath → Option FilePath → Op FilePath
resolved_or_raise p none = lift (err (record { error_kind = none; message = to_text p }))
resolved_or_raise p (some resolved) = pure resolved

abbrev pub found_directory : Result Failure Node → Bool
found_directory (ok node) = is_directory node
found_directory (err _) = false

module _ (w : World) where
  -- the loop over the components of `relative`
  unfoldable pub check_entries : FilePath → FilePath → Op Unit
  check_entries current [] = pure tt
  check_entries current (c ∷ rest) = do
    let below = current ++ c ∷ []
    node ← context (about "failed to inspect transaction path: " below) (symlink_metadata w below)
    check_entry below (is_empty rest) node
    check_entries below rest

  -- `Path::is_dir`: no answer is no
  unfoldable pub is_dir : FilePath → Op Bool
  is_dir p = do answer ← attempt (metadata w p); pure (found_directory answer)

  -- `fs::canonicalize`
  unfoldable pub canonical : FilePath → Op FilePath
  canonical p = do
    call w
    resolved ← gets (λ s. w.canonicalize s.tree p)
    resolved_or_raise p resolved

  unfoldable pub validate_target_location : FilePath → FilePath → Op Unit
  validate_target_location workspace path = do
    relative ← lift (validate_relative_path path)
    check_entries workspace relative
    let parent = parent_below workspace relative
    present ← is_dir parent
    raise_if (not present) precondition
        (about "transaction target parent must already exist: " parent)
    resolved ←
        with_kind precondition (about "failed to resolve target parent " parent) (canonical parent)
    raise_if (not (FilePath.starts_with resolved workspace)) precondition
        (about "transaction target escapes workspace: " (workspace ++ relative))

  -- `fs::read`, of what stands there now
  unfoldable pub read_file : FilePath → Op Text
  read_file p = do call w; node ← gets (λ s. s.tree p); file_content node

  -- behind `fs::symlink_metadata`
  unfoldable pub read_node : FilePath → Node → Op Content
  read_node p missing = pure none
  read_node p (regular _ _) = do
    content ← context (about "failed to read transaction file: " p) (read_file p)
    pure (some content)
  read_node p directory = raise precondition (about "transaction path is not a regular file: " p)
  read_node p link = raise precondition (about "transaction path is not a regular file: " p)
  read_node p special = raise precondition (about "transaction path is not a regular file: " p)

  unfoldable pub read_optional_regular_file : FilePath → Op Content
  read_optional_regular_file p = do
    node ← context (about "failed to inspect transaction file: " p) (symlink_metadata w p)
    read_node p node

  unfoldable pub read_validated_target : FilePath → FilePath → Op Content
  read_validated_target workspace relative = do
    validate_target_location workspace relative
    read_optional_regular_file (workspace ++ relative)
