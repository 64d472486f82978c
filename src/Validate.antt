-- ===== src/Validate.antt =====
-- The validators of crates/opticcode-policy/src/engine.rs, and `bounded`.
pub mod Bounds
use optic_code.FilePath.{FilePath, is_absolute, is_normal, to_text}
use optic_code.Model.{PolicyRequest, max_policy_identifier_bytes}
use optic_code.Paths.{Checked, PathSafetyError}
use optic_code.Prelude.{
  Bool, List, Option, Result, String, [], all, any, err, fail_if, false, if◌then◌else◌, is_empty,
  leb, length, ltb, min, nat_eq, none, not, ok, some, suc, take, zero, ℕ, ◌!=◌, ◌&&◌, ◌++◌, ◌-◌,
  ◌==◌, ◌>>=◌, ◌>>◌, ◌||◌, ◌∷◌,
}
use optic_code.Text.{
  Text, bytes, forward_slashes, is_ascii_alphanumeric, is_ascii_hexdigit, is_control, text_lt,
}

pub data PolicyError : Type 0 where
  invalid_request storage_failure : Text → PolicyError

abbrev fault : String → String → PathSafetyError
fault rule message = record { rule_id = rule; message = bytes message }

abbrev labelled : String → String → String → PathSafetyError
labelled rule label message = record { rule_id = rule; message = bytes label ++ bytes message }

unfoldable pub validate_hash_value : Text → String → Checked Unit
validate_hash_value value label =
    fail_if (length value != 64 || not (all is_ascii_hexdigit value))
      (labelled "action.hash_invalid" label " is not a 64-character hexadecimal digest")

unfoldable pub validate_git_oid : Text → String → Checked Unit
validate_git_oid value label =
    fail_if (not (length value == 40 || length value == 64) || not (all is_ascii_hexdigit value))
      (labelled "git.oid_invalid" label " is not a full hexadecimal Git object ID")

unfoldable pub require_working_tree_digest : PolicyRequest → Checked Unit
unfolding validate_hash_value
require_working_tree_digest request = elim request.workspace.working_tree_digest [
  | none ↦ err (
      fault "git.working_tree_unobserved"
        "working-tree digest is required for this mutating action")
  | some digest ↦ validate_hash_value digest "working-tree digest"
]

unfoldable pub validate_identifier_value : Text → String → Checked Unit
validate_identifier_value value label =
    fail_if
      (is_empty value || ltb max_policy_identifier_bytes (length value) || any is_control value)
      (labelled "action.identifier_invalid" label
        " is empty, too long, or contains control characters")

abbrev pub is_id_byte : ℕ → Bool
is_id_byte c = is_ascii_alphanumeric c || (c == b'-' || c == b'_')

unfoldable pub validate_worktree_run_id : Text → Checked Unit
validate_worktree_run_id value =
    fail_if (not (leb 1 (length value) && leb (length value) 96) || not (all is_id_byte value)) (
      fault "worktree.run_id" "worktree run ID must contain only ASCII letters, digits, '-' or '_'")

unfoldable pub validate_request_identifier : Text → ℕ → String → Result PolicyError Unit
validate_request_identifier value max label =
    fail_if
      (is_empty value
        || ltb max (length value)
        || not (all (λ c. is_id_byte c || c == b'.' || c == b':') value))
      (invalid_request
        (bytes label ++ bytes " contains unsupported characters or exceeds its bound"))

-- The texts that `validate_sorted_paths` compares.
unfoldable pub normalized_paths : List FilePath → Checked (List Text)
normalized_paths [] = ok []
normalized_paths (p ∷ ps) = do
  fail_if (is_absolute p || any (λ c. not (is_normal c)) p)
      (fault "path.invalid_relative" "file lists must contain normal relative paths")
  rest ← normalized_paths ps
  ok (forward_slashes (to_text p) ∷ rest)

-- `windows(2).any(|pair| pair[0] >= pair[1])`
unfoldable pub out_of_order : List Text → Bool
out_of_order [] = false
out_of_order (x ∷ []) = false
out_of_order (x ∷ y ∷ rest) = not (text_lt x y) || out_of_order (y ∷ rest)

unfoldable pub validate_sorted_paths : List FilePath → Checked Unit
validate_sorted_paths paths = do
  normalized ← normalized_paths paths
  fail_if (out_of_order normalized)
      (fault "action.path_order" "file lists must be unique and sorted deterministically")

abbrev pub byte_at : Text → ℕ → Option ℕ
byte_at [] i = none
byte_at (c ∷ s) zero = some c
byte_at (c ∷ s) (suc i) = byte_at s i

-- `str::is_char_boundary`: not inside a multi-byte character of UTF-8
unfoldable pub is_char_boundary : Text → ℕ → Bool
is_char_boundary s i =
    i == 0 || elim (byte_at s i) [ none ↦ i == length s | some c ↦ ltb c 128 || leb 192 c ]

-- the `while` loop of `bounded`
unfoldable pub floor_boundary : Text → ℕ → ℕ
floor_boundary s zero = 0
floor_boundary s (suc end) = if is_char_boundary s (suc end) then suc end else floor_boundary s end

unfoldable pub bounded : Text → ℕ → Text
unfolding floor_boundary
bounded value max =
    if leb (length value) max
    then value
    else take (floor_boundary value (min (max - 16) (length value))) value ++ bytes "...[truncated]"

unfoldable pub invalid_path_request : PathSafetyError → PolicyError
invalid_path_request e = invalid_request (bytes e.rule_id ++ bytes ": " ++ e.message)
