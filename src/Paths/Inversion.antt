-- ===== src/Paths/Inversion.antt =====
-- What a successful `inspect_path` and `inspect_root` of crates/opticcode-policy/src/paths.rs have
-- run through, step by step.
use optic_code.FilePath.{join}
use optic_code.Host.{Host, Metadata}
use optic_code.Model.Actions.{PathTarget}
use optic_code.Paths.{
  PathExpectation, PathSafetyReport, check_expectation, fingerprint, inspect_components,
  inspect_path, reject_nested_repository, reject_sensitive_path, relative_target, resolve_target,
}
use optic_code.Prelude.{Option, arith, err, none, ok, ◌≡◌}

-- The metadata that `inspect_components` found at the target of a report.
pub found_metadata : Host → PathExpectation → PathSafetyReport → Option Metadata
found_metadata host e r = elim (inspect_components host r.root r.relative_path e) [
  | ok f ↦ f.1
  | err _ ↦ none
]

module _ (host : Host) (t : PathTarget) (e : PathExpectation) {r : PathSafetyReport}
    (h : inspect_path host t e ≡ ok r) where
  pub canonical_root : host.canonicalize t.root ≡ ok r.root
  unfolding inspect_path
  canonical_root = ground arith

  pub relative_path : relative_target r.root t.path ≡ ok r.relative_path
  unfolding inspect_path
  relative_path = ground arith

  pub sensitive_checked : reject_sensitive_path r.relative_path ≡ ok tt
  unfolding inspect_path
  sensitive_checked = ground arith

  pub nested_checked : reject_nested_repository host r.root r.relative_path ≡ ok tt
  unfolding inspect_path
  nested_checked = ground arith

  pub components_found :
      inspect_components host r.root r.relative_path e ≡ ok (r.exists, found_metadata host e r)
  unfolding inspect_path found_metadata
  components_found = ground arith

  pub expectation_met : check_expectation (found_metadata host e r) e ≡ ok tt
  unfolding inspect_path found_metadata
  expectation_met = ground arith

  pub target_resolved :
      resolve_target host r.root (join r.root r.relative_path) r.exists ≡ ok r.target
  unfolding inspect_path
  target_resolved = ground arith

  pub fingerprinted :
      fingerprint host (found_metadata host e r) r.target t.expected_hash ≡ ok r.fingerprint
  unfolding inspect_path found_metadata
  fingerprinted = ground arith
