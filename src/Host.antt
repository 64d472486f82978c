-- ===== src/Host.antt =====
-- What the policy crate calls and this repository does not hold: the file system of `std::fs`,
-- `std::env::temp_dir`, the digest of `blake3` in hexadecimal and the JSON of `serde_json`. A host is
-- one observation of the file system: nothing else writes to it while a request is evaluated.
use optic_code.FilePath.{FilePath}
use optic_code.Model.{PolicyRequest}
use optic_code.Model.Actions.{PolicyAction}
use optic_code.Prelude.{Bool, Result, false, ℕ}
use optic_code.Text.{Text}

pub data IoError : Type 0 where
  not_found other_error : IoError

pub record Metadata : Type 0 where
  pub is_dir : Bool
  pub is_file : Bool
  pub is_symlink : Bool
  pub len : ℕ
  pub modified_unix_nanos : ℕ

-- The wire form of a worktree lease (crates/opticcode-policy/src/engine.rs).
pub record WorktreeLeaseWire : Type 0 where
  pub schema_version : ℕ
  pub run_id : Text
  pub owner_workspace_id : Text
  pub owner_request_id : Text
  pub process_id : ℕ
  pub created_unix_ms : ℕ
  pub source_git_root : FilePath
  pub source_project : FilePath
  pub source_commit : Text
  pub worktree_path : FilePath

pub record Host : Type 0 where
  pub symlink_metadata : FilePath → Result IoError Metadata
  pub canonicalize : FilePath → Result IoError FilePath
  pub read : FilePath → Result IoError Text
  pub exists : FilePath → Bool
  pub temp_dir : FilePath
  -- `Path::new` on a text
  pub parse_path : Text → FilePath
  pub blake3 : Text → Text
  -- `Display` of an integer
  pub show : ℕ → Text
  pub action_json : PolicyAction → Result Text Text
  pub request_json : PolicyRequest → Result Text Text
  pub parse_lease : Text → Result Text WorktreeLeaseWire

-- The build is `cfg(not(windows))`.
abbrev pub cfg_windows : Bool
cfg_windows = false

-- `metadata_is_link_or_reparse` and `metadata_attributes` of that build
unfoldable pub metadata_is_link_or_reparse : Metadata → Bool
metadata_is_link_or_reparse m = m.is_symlink

unfoldable pub metadata_attributes : Metadata → ℕ
metadata_attributes _ = 0
