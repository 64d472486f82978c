-- ===== src/Paths/Stability.antt =====
-- `revalidate` of crates/opticcode-policy/src/paths.rs: on an unchanged file system it reproduces the
-- report that it is given.
use optic_code.Paths.Inversion
use optic_code.FilePath.{FilePath, is_normal, join}
use optic_code.Host.{Host, IoError, Metadata, metadata_is_link_or_reparse, not_found, other_error}
use optic_code.Model.Actions.{PathTarget}
use optic_code.Paths.{
  PathExpectation, PathFingerprint, PathSafetyReport, check_expectation, existing_entry,
  fingerprint, inspect_components, inspect_from, inspect_last, inspect_path, new_file,
  relative_target, revalidate,
}
use optic_code.Paths.Safety.{inspect_path-IsSafe, relative_target-normal}
use optic_code.Prelude.{
  Bool, Option, Result, [], any, arith, err, false, if◌then◌else◌, is_some, none, not, ok, refl,
  some, true, ◌∷◌, ◌≡◌, ◌≢◌,
}
use optic_code.Text.{Text}

-- What the documentation of `std::fs` says of a quiet file system: resolving a resolved path changes
-- nothing, and a path that is no link and its resolution are the same entry.
pub record IsFileSystem (host : Host) : Type 0 where
  pub canonical_idem : (p q : FilePath) → host.canonicalize p ≡ ok q → host.canonicalize q ≡ ok q
  pub same_entry :
      (p q : FilePath) (m : Metadata)
      → host.canonicalize p ≡ ok q
      → host.symlink_metadata p ≡ ok m
      → m.is_symlink ≡ false
      → host.symlink_metadata q ≡ ok m

abbrev again : Bool → PathExpectation
again present = if present then existing_entry else new_file

module _ (host : Host) where
  inspect_last-again :
      (e : PathExpectation) (found : Result IoError Metadata) (present : Bool) (m : Option Metadata)
      → inspect_last e found ≡ ok (present, m)
      → (inspect_last (again present) found ≡ ok (present, m)) × (is_some m ≡ present)
  unfolding inspect_last
  inspect_last-again e (ok x) present m h = (ground arith, ground arith)
  inspect_last-again e (err not_found) present m h = (ground arith, ground arith)
  inspect_last-again e (err other_error) present m h = (cc, cc)

  inspect_from-again :
      (e : PathExpectation) (current rest : FilePath) (present : Bool) (m : Option Metadata)
      → inspect_from host e current rest ≡ ok (present, m)
      → (inspect_from host (again present) current rest ≡ ok (present, m)) × (is_some m ≡ present)
  unfolding inspect_from
  inspect_from-again e current [] present m h = (cc, cc)
  inspect_from-again e current (c ∷ []) present m h =
      inspect_last-again e (host.symlink_metadata (join current (c ∷ []))) present m h
  inspect_from-again e current (c ∷ d ∷ rest) present m h =
      let below =
        inspect_from-again e (join current (c ∷ [])) (d ∷ rest) present m (ground arith) in
      (ground arith, below.1)

  fingerprint-again :
      (m : Option Metadata) (p : FilePath) (expected : Option Text) {f : PathFingerprint}
      → fingerprint host m p expected ≡ ok f
      → fingerprint host m p f.content_hash ≡ ok f
  unfolding fingerprint
  fingerprint-again none p expected h = ground arith
  fingerprint-again (some m) p expected h = ground arith

check_expectation-again :
    (m : Option Metadata) (present : Bool)
    → is_some m ≡ present
    → check_expectation m (again present) ≡ ok tt
unfolding check_expectation
check_expectation-again none present h = ground arith
check_expectation-again (some m) present h = ground arith

relative_target-again :
    (root p : FilePath)
    → p ≢ []
    → any (λ c. not (is_normal c)) p ≡ false
    → relative_target root p ≡ ok p
unfolding relative_target
relative_target-again root [] ne n = absurd (ne refl)
relative_target-again root (c ∷ p) ne n = ground arith

-- The root of a report is a directory and no link, before and after it was resolved.
report_root :
    (host : Host) (t : PathTarget) (e : PathExpectation) {r : PathSafetyReport}
    → inspect_path host t e ≡ ok r
    → (m : Metadata) × (host.symlink_metadata t.root ≡ ok m)
      × (m.is_dir ≡ true)
      × (m.is_symlink ≡ false)
unfolding inspect_path metadata_is_link_or_reparse
report_root host t e h = entry (host.symlink_metadata t.root) refl
  where
    entry :
        (found : Result IoError Metadata)
        → host.symlink_metadata t.root ≡ found
        → (m : Metadata) × (host.symlink_metadata t.root ≡ ok m)
          × (m.is_dir ≡ true)
          × (m.is_symlink ≡ false)
    entry (ok m) q = (m, q, ground arith, ground arith)
    entry (err x) q = absurd (ground arith)

-- On a file system that keeps to the documented laws, revalidating the report of any inspection at
-- once gives back the same report: authorised paths are not refused for a drift that did not happen.
pub revalidate-inspect_path :
    (host : Host) (t : PathTarget) (e : PathExpectation) {r : PathSafetyReport}
    → IsFileSystem host
    → inspect_path host t e ≡ ok r
    → revalidate host r ≡ ok r
unfolding revalidate metadata_is_link_or_reparse inspect_components
revalidate-inspect_path host t e {r} fs h =
    let (m, entry, dir, plain) = report_root host t e h in
    let canonical = Inversion.canonical_root host t e h in
    let safe = inspect_path-IsSafe host t e h in
    let root_again = fs.canonical_idem t.root r.root canonical in
    let entry_again = fs.same_entry t.root r.root m canonical entry plain in
    let relative = Inversion.relative_path host t e h in
    let relative_again =
      relative_target-again r.root r.relative_path safe.non_empty
        (relative_target-normal r.root t.path relative) in
    let parts =
      inspect_from-again host e r.root r.relative_path r.exists (Inversion.found_metadata host e r)
        (Inversion.components_found host t e h) in
    ground (
      arith,
      dir,
      plain,
      root_again,
      entry_again,
      relative_again,
      Inversion.sensitive_checked host t e h,
      Inversion.nested_checked host t e h,
      parts.0,
      Inversion.target_resolved host t e h,
      check_expectation-again (Inversion.found_metadata host e r) r.exists parts.1,
      fingerprint-again host (Inversion.found_metadata host e r) r.target t.expected_hash
          (Inversion.fingerprinted host t e h),
    )
