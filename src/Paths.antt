-- ===== src/Paths.antt =====
-- crates/opticcode-policy/src/paths.rs: canonicalisation, confinement and fingerprints of the paths
-- of an action. The names that are refused are in the child `Sensitive`.
pub mod Sensitive
pub mod Stability
pub mod Safety
pub mod Inversion
use optic_code.FilePath
use optic_code.FilePath.{FilePath, as_os_str, is_absolute, is_normal, join, normal}
use optic_code.Host.{
  Host, IoError, Metadata, metadata_attributes, metadata_is_link_or_reparse, not_found, other_error,
}
use optic_code.Model.Actions.{PathTarget}
use optic_code.Paths.Sensitive.{is_sensitive_name}
use optic_code.Prelude.{
  Bool, Eq, List, Option, Result, String, [], any, err, fail_if, false, if◌then◌else◌, is_empty,
  is_some, leb, ltb, map_err, none, not, ok, ok_or, some, true, ℕ, ℕ_discrete, ◌!=◌, ◌&&◌, ◌*◌,
  ◌++◌, ◌==◌, ◌>>=◌, ◌>>◌, ◌||◌, ◌∷◌,
}
use optic_code.Text.{Text, bytes, text_eq, to_ascii_lowercase}

abbrev pub max_policy_hash_file_bytes : ℕ
max_policy_hash_file_bytes = 16 * 1024 * 1024

pub data PathExpectation : Type 0 where
  file directory existing_entry new_file : PathExpectation

unfoldable pub PathExpectation-discrete : Discrete PathExpectation
PathExpectation-discrete = hlevel

instance abbrev pub expectation_eq : Eq PathExpectation
expectation_eq = record { dec = PathExpectation-discrete }

pub record PathFingerprint : Type 0 where
  pub metadata_hash : Text
  pub content_hash : Option Text
  pub byte_count : ℕ
  pub modified_unix_nanos : ℕ

pub record PathSafetyReport : Type 0 where
  pub root : FilePath
  pub target : FilePath
  pub relative_path : FilePath
  pub exists : Bool
  pub fingerprint : PathFingerprint

unfoldable pub PathSafetyReport-discrete : Discrete PathSafetyReport
PathSafetyReport-discrete = hlevel ℕ_discrete

instance abbrev pub report_eq : Eq PathSafetyReport
report_eq = record { dec = PathSafetyReport-discrete }

unfoldable pub Reports-discrete : Discrete (List PathSafetyReport)
Reports-discrete = hlevel ℕ_discrete

instance abbrev pub reports_eq : Eq (List PathSafetyReport)
reports_eq = record { dec = Reports-discrete }

pub record PathSafetyError : Type 0 where
  pub rule_id : String
  pub message : Text

-- `PathSafetyError::new`
unfoldable pub path_error : String → String → PathSafetyError
path_error rule message = record { rule_id = rule; message = bytes message }

abbrev pub Checked : Type 0 → Type 0
Checked A = Result PathSafetyError A

unfoldable pub relative_target : FilePath → FilePath → Checked FilePath
relative_target root requested = do
  relative ←
      (if is_absolute requested
        then ok_or
            (path_error "path.outside_root" "absolute action target is outside its declared root")
            (FilePath.strip_prefix requested root)
        else ok requested)
  fail_if (is_empty relative)
      (path_error "path.root_target" "the root itself is not a valid file action target")
  fail_if (any (λ c. not (is_normal c)) relative) (
      path_error "path.invalid_relative"
        "action target must contain only normal relative components")
  ok relative

unfoldable pub reject_sensitive_path : FilePath → Checked Unit
reject_sensitive_path relative =
    fail_if (any (λ c. is_sensitive_name (to_ascii_lowercase (as_os_str c))) relative)
      (path_error "path.sensitive" "action target is covered by the sensitive-path policy")

-- `.git` as a directory, a file or a link
abbrev is_marker : Result IoError Metadata → Bool
is_marker (ok m) = m.is_dir || m.is_file || metadata_is_link_or_reparse m
is_marker (err _) = false

abbrev component_missing : PathSafetyError
component_missing =
    path_error "path.not_found" "action path component does not exist or cannot be inspected"

abbrev component_is_link : PathSafetyError
component_is_link =
    path_error "path.symlink_or_reparse"
      "action target contains a symlink, junction, or reparse point"

-- the last round of `inspect_components`
unfoldable pub inspect_last :
    PathExpectation → Result IoError Metadata → Checked (Bool × Option Metadata)
inspect_last expectation (ok metadata) = do
  fail_if (metadata_is_link_or_reparse metadata) component_is_link
  ok (true, some metadata)
inspect_last expectation (err not_found) =
    if expectation == new_file then ok (false, none) else err component_missing
inspect_last expectation (err other_error) = err component_missing

-- the `match expectation` of `inspect_path`
unfoldable pub check_expectation : Option Metadata → PathExpectation → Checked Unit
check_expectation (some metadata) file =
    fail_if (not metadata.is_file)
      (path_error "path.not_file" "action target is not a regular file")
check_expectation (some metadata) directory =
    fail_if (not metadata.is_dir)
      (path_error "path.not_directory" "action target is not a directory")
check_expectation (some metadata) new_file =
    err (path_error "path.already_exists" "new-file target already exists")
check_expectation (some metadata) existing_entry = ok tt
check_expectation none expectation =
    fail_if (expectation != new_file) (path_error "path.not_found" "action target does not exist")

-- `expected_hash.is_some_and(|expected| expected != actual)`
abbrev differs : Option Text → Text → Bool
differs none actual = false
differs (some expected) actual = expected != actual

abbrev bool_text : Bool → Text
bool_text true = bytes "true"
bool_text false = bytes "false"

abbrev metadata_value : Host → Metadata → Text
metadata_value host m =
    host.show m.len
    ++ bytes ":"
    ++ host.show m.modified_unix_nanos
    ++ bytes ":"
    ++ bool_text m.is_file
    ++ bytes ":"
    ++ host.show (metadata_attributes m)

module _ (host : Host) where
  -- the loop of `reject_nested_repository`, from the component that comes next
  unfoldable pub reject_nested_from : FilePath → FilePath → Checked Unit
  reject_nested_from current [] = ok tt
  reject_nested_from current (c ∷ rest) = do
    let below = join current (c ∷ [])
    fail_if (is_marker (host.symlink_metadata (join below (normal (bytes ".git") ∷ [])))) (
        path_error "git.nested_repository"
          "action target crosses a nested repository or submodule boundary")
    reject_nested_from below rest

  unfoldable pub reject_nested_repository : FilePath → FilePath → Checked Unit
  unfolding reject_nested_from
  reject_nested_repository root relative = reject_nested_from root relative

  -- the loop of `inspect_components`; the last component may be missing for a new file
  unfoldable pub inspect_from :
      PathExpectation → FilePath → FilePath → Checked (Bool × Option Metadata)
  inspect_from expectation current [] =
      err (path_error "path.invalid_relative" "action target has no usable path component")
  inspect_from expectation current (c ∷ []) =
      inspect_last expectation (host.symlink_metadata (join current (c ∷ [])))
  inspect_from expectation current (c ∷ d ∷ rest) = do
    let below = join current (c ∷ [])
    metadata ← map_err (λ _. component_missing) (host.symlink_metadata below)
    fail_if (metadata_is_link_or_reparse metadata) component_is_link
    fail_if (not metadata.is_dir) (
        path_error "path.invalid_component"
          "an intermediate action path component is not a directory")
    inspect_from expectation below (d ∷ rest)

  unfoldable pub inspect_components :
      FilePath → FilePath → PathExpectation → Checked (Bool × Option Metadata)
  unfolding inspect_from
  inspect_components root relative expectation = inspect_from expectation root relative

  -- the content hash of `fingerprint`
  unfoldable pub content_hash_of : Metadata → FilePath → Option Text → Checked (Option Text)
  content_hash_of metadata path expected_hash =
      if not
        (metadata.is_file && (is_some expected_hash || leb metadata.len max_policy_hash_file_bytes))
      then ok none
      else do
        fail_if (ltb max_policy_hash_file_bytes metadata.len) (
            path_error "path.hash_limit" "file is too large for a policy content-hash precondition")
        contents ←
            map_err
              (λ _. path_error "path.read_failed" "file cannot be hashed for policy validation")
              (host.read path)
        fail_if (differs expected_hash (host.blake3 contents))
            (path_error "path.hash_mismatch" "file content no longer matches the expected hash")
        ok (some (host.blake3 contents))

  unfoldable pub fingerprint : Option Metadata → FilePath → Option Text → Checked PathFingerprint
  unfolding content_hash_of
  fingerprint none path expected_hash = ok (record {
    metadata_hash = host.blake3 (bytes "missing");
    content_hash = none;
    byte_count = 0;
    modified_unix_nanos = 0;
  })
  fingerprint (some metadata) path expected_hash = do
    content ← content_hash_of metadata path expected_hash
    ok (record {
      metadata_hash = host.blake3 (metadata_value host metadata);
      content_hash = content;
      byte_count = metadata.len;
      modified_unix_nanos = metadata.modified_unix_nanos;
    })

  unfoldable pub resolve_target : FilePath → FilePath → Bool → Checked FilePath
  resolve_target root candidate present = if not present then ok candidate else do
    resolved ←
        map_err (λ _. path_error "path.resolve_failed" "action target cannot be resolved")
          (host.canonicalize candidate)
    fail_if (not (FilePath.starts_with resolved root))
        (path_error "path.outside_root" "action target resolves outside its declared root")
    ok resolved

  unfoldable pub inspect_path : PathTarget → PathExpectation → Checked PathSafetyReport
  inspect_path target expectation = do
    root_metadata ←
        map_err (λ _. path_error "path.root_unavailable" "action root cannot be inspected")
          (host.symlink_metadata target.root)
    fail_if (not root_metadata.is_dir || metadata_is_link_or_reparse root_metadata)
        (path_error "path.root_reparse" "action root must be a real directory")
    root ←
        map_err (λ _. path_error "path.root_unavailable" "action root cannot be resolved")
          (host.canonicalize target.root)
    relative ← relative_target root target.path
    reject_sensitive_path relative
    reject_nested_repository root relative
    found ← inspect_components root relative expectation
    resolved ← resolve_target root (join root relative) found.0
    check_expectation found.1 expectation
    print ← fingerprint found.1 resolved target.expected_hash
    ok (record {
      root = root;
      target = resolved;
      relative_path = relative;
      exists = found.0;
      fingerprint = print;
    })

  unfoldable pub inspect_root : FilePath → Checked FilePath
  inspect_root path = do
    metadata ←
        map_err (λ _. path_error "path.root_unavailable" "workspace root cannot be inspected")
          (host.symlink_metadata path)
    fail_if (not metadata.is_dir || metadata_is_link_or_reparse metadata)
        (path_error "path.root_reparse" "workspace root must be a real directory")
    canonical ←
        map_err (λ _. path_error "path.root_unavailable" "workspace root cannot be resolved")
          (host.canonicalize path)
    canonical_metadata ←
        map_err
          (λ _. path_error "path.root_unavailable" "canonical workspace root cannot be inspected")
          (host.symlink_metadata canonical)
    fail_if (not canonical_metadata.is_dir || metadata_is_link_or_reparse canonical_metadata)
        (path_error "path.root_reparse" "canonical workspace root must be a real directory")
    ok canonical

  unfoldable pub revalidate : PathSafetyReport → Checked PathSafetyReport
  unfolding inspect_path
  revalidate report =
      inspect_path
        (record {
          root = report.root;
          path = report.relative_path;
          range = none;
          expected_hash = report.fingerprint.content_hash;
        })
        (if report.exists then existing_entry else new_file)
