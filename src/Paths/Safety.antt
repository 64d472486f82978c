-- ===== src/Paths/Safety.antt =====
-- Where the paths that crates/opticcode-policy/src/paths.rs lets through lie: inside their root, by
-- normal components, past no link and no repository, and under no sensitive name.
use mathlib.Core.Path.{subst}
use mathlib.Core.List.{append_assoc}
use optic_code.FilePath
use optic_code.Paths.Inversion
use optic_code.FilePath.{
  Component, FilePath, as_os_str, cur_dir, is_normal, join, normal, parent_dir, root_dir,
}
use optic_code.Host.{Host, Metadata, metadata_is_link_or_reparse}
use optic_code.Model.Actions.{PathTarget}
use optic_code.Paths.{
  PathExpectation, PathFingerprint, PathSafetyReport, check_expectation, file, fingerprint,
  inspect_components, inspect_from, inspect_last, inspect_path, reject_nested_from,
  reject_nested_repository, reject_sensitive_path, relative_target, resolve_target,
}
use optic_code.Paths.Sensitive.{is_sensitive_name}
use optic_code.Prelude.{
  All, Bool, Option, [], any, any-All, arith, err, false, none, not, ok, refl, some, true, ◌++◌,
  ◌∷◌, ◌≡◌, ◌≢◌,
}
use optic_code.Text.{Text, bytes, to_ascii_lowercase}

pub join-normal :
    (base : FilePath) (c : Component) (p : FilePath)
    → is_normal c ≡ true
    → join base (c ∷ p) ≡ base ++ c ∷ p
unfolding join
join-normal [] (normal n) p h = refl
join-normal (b ∷ bs) (normal n) p h = refl
join-normal base root_dir p h = cc
join-normal base cur_dir p h = cc
join-normal base parent_dir p h = cc

pub relative_target-normal :
    (root p : FilePath) {q : FilePath}
    → relative_target root p ≡ ok q
    → any (λ c. not (is_normal c)) q ≡ false
unfolding relative_target
relative_target-normal root p h = ground arith

pub not_normal-IsNormal :
    (q : FilePath) → any (λ c. not (is_normal c)) q ≡ false → All (λ c. is_normal c ≡ true) q
not_normal-IsNormal [] h = tt
not_normal-IsNormal (c ∷ q) h = (ground arith, not_normal-IsNormal q (ground arith))

relative_target-ne : (root p : FilePath) {q : FilePath} → relative_target root p ≡ ok q → q ≢ []
unfolding relative_target
relative_target-ne root p h = ground arith

reject_sensitive-names :
    (q : FilePath)
    → reject_sensitive_path q ≡ ok tt
    → any (λ c. is_sensitive_name (to_ascii_lowercase (as_os_str c))) q ≡ false
unfolding reject_sensitive_path
reject_sensitive-names q h = ground arith

starts_with-cons :
    (b c : Component) (p base : FilePath)
    → FilePath.starts_with (c ∷ p) (b ∷ base) ≡ true
    → (c ≡ b) × (FilePath.starts_with p base ≡ true)
unfolding FilePath.starts_with
starts_with-cons b c p base h = ground arith

pub starts_with-append :
    (p base : FilePath) → FilePath.starts_with p base ≡ true → (q : FilePath) × (p ≡ base ++ q)
unfolding FilePath.starts_with
starts_with-append p [] h = (p, refl)
starts_with-append [] (b ∷ bs) h = cc
starts_with-append (c ∷ p) (b ∷ bs) h =
    let both = starts_with-cons b c p bs h in
    let (q, e) = starts_with-append p bs both.1 in (q, cc (both.0, e))

cons-split :
    {c d : Component} {p q : FilePath} → ◌≡◌ {A = FilePath} (c ∷ p) (d ∷ q) → (c ≡ d) × (p ≡ q)
cons-split h = (cc, cc)

-- A property of every path that a loop over the components of `rest` builds behind `base`.
abbrev AlongPath : (FilePath → Type 0) → FilePath → FilePath → Type 0
AlongPath P base [] = Unit
AlongPath P base (c ∷ rest) = P (base ++ c ∷ []) × AlongPath P (base ++ c ∷ []) rest

-- The same, of every non-empty beginning of the path.
abbrev pub OnPrefixes : (FilePath → Type 0) → FilePath → FilePath → Type 0
OnPrefixes P base rest = (p q : FilePath) → p ≢ [] → rest ≡ p ++ q → P (base ++ p)

AlongPath-OnPrefixes :
    (P : FilePath → Type 0) (rest base : FilePath) → AlongPath P base rest → OnPrefixes P base rest
AlongPath-OnPrefixes P [] base h [] q ne split = absurd (ne refl)
AlongPath-OnPrefixes P [] base h (c ∷ p) q ne split = cc
AlongPath-OnPrefixes P (c ∷ rest) base h [] q ne split = absurd (ne refl)
AlongPath-OnPrefixes P (c ∷ rest) base h (d ∷ []) q ne split =
    subst (λ x. P (base ++ x ∷ [])) (cons-split split).0 h.0
AlongPath-OnPrefixes P (c ∷ rest) base h (d ∷ e ∷ p) q ne split =
    let (same, tails) = cons-split split in
    let below = AlongPath-OnPrefixes P rest (base ++ c ∷ []) h.1 (e ∷ p) q (λ x. cc) tails in
    subst (λ x. P (base ++ x ∷ e ∷ p)) same (rw append_assoc at below)

-- What the loops establish of each path.
abbrev pub IsLinkFree : Host → FilePath → Type 0
IsLinkFree host p = (m : Metadata) → host.symlink_metadata p ≡ ok m → m.is_symlink ≡ false

abbrev pub IsRepositoryFree : Host → FilePath → Type 0
IsRepositoryFree host p =
    (m : Metadata)
    → host.symlink_metadata (p ++ normal (bytes ".git") ∷ []) ≡ ok m
    → (m.is_dir ≡ false) × (m.is_file ≡ false) × (m.is_symlink ≡ false)

abbrev pub IsNormal : FilePath → Type 0
IsNormal = All (λ c. is_normal c ≡ true)

module _ (host : Host) where
  inspect_last-IsLinkFree :
      (e : PathExpectation) (p : FilePath) {f : Bool × Option Metadata}
      → inspect_last e (host.symlink_metadata p) ≡ ok f
      → IsLinkFree host p
  unfolding inspect_last metadata_is_link_or_reparse
  inspect_last-IsLinkFree e p h m g = ground arith

  inspect_from-IsLinkFree :
      (e : PathExpectation) (rest current : FilePath) {f : Bool × Option Metadata}
      → IsNormal rest
      → inspect_from host e current rest ≡ ok f
      → AlongPath (IsLinkFree host) current rest
  unfolding inspect_from metadata_is_link_or_reparse
  inspect_from-IsLinkFree e [] current n h = tt
  inspect_from-IsLinkFree e (c ∷ []) current n h =
      (inspect_last-IsLinkFree e (current ++ c ∷ []) (rw (join-normal current c [] n.0) at h), tt)
  inspect_from-IsLinkFree e (c ∷ d ∷ rest) current {f} n h =
      let h' = rw (join-normal current c [] n.0) at h in
      (
        λ m g. ground arith,
        inspect_from-IsLinkFree e (d ∷ rest) (current ++ c ∷ []) {f = f} n.1 (ground arith),
      )

  reject_nested-IsRepositoryFree :
      (rest current : FilePath)
      → IsNormal rest
      → reject_nested_from host current rest ≡ ok tt
      → AlongPath (IsRepositoryFree host) current rest
  unfolding reject_nested_from metadata_is_link_or_reparse
  reject_nested-IsRepositoryFree [] current n h = tt
  reject_nested-IsRepositoryFree (c ∷ rest) current n h =
      let h' =
        rw
          (
            join-normal current c [] n.0,
            join-normal (current ++ c ∷ []) (normal (bytes ".git")) [] refl,
          )
          at h in
      (
        λ m g. ground arith,
        reject_nested-IsRepositoryFree rest (current ++ c ∷ []) n.1 (ground arith),
      )

-- The digest of what stands at a path now.
abbrev pub hashed : Host → FilePath → Option Text
hashed host p = elim (host.read p) [ ok contents ↦ some (host.blake3 contents) | err _ ↦ none ]

fingerprint-fresh :
    (host : Host) (m : Option Metadata) (p : FilePath) (expected : Option Text)
    {f : PathFingerprint}
    → fingerprint host m p expected ≡ ok f
    → (k : Text) → f.content_hash ≡ some k
    → hashed host p ≡ some k
unfolding fingerprint
fingerprint-fresh host none p expected h k e = cc
fingerprint-fresh host (some m) p expected h k e = ground arith

-- What a path has to be before an action may touch it.
pub record IsSafe (host : Host) (t : PathTarget) (r : PathSafetyReport) : Type 0 where
  pub canonical : host.canonicalize t.root ≡ ok r.root
  pub non_empty : r.relative_path ≢ []
  pub normal_parts : IsNormal r.relative_path
  pub not_sensitive :
      All (λ c. is_sensitive_name (to_ascii_lowercase (as_os_str c)) ≡ false) r.relative_path
  pub link_free : OnPrefixes (IsLinkFree host) r.root r.relative_path
  pub repository_free : OnPrefixes (IsRepositoryFree host) r.root r.relative_path
  pub confined : (q : FilePath) × (r.target ≡ r.root ++ q)
  pub hash_fresh : (k : Text) → r.fingerprint.content_hash ≡ some k → hashed host r.target ≡ some k

confined_target :
    (host : Host) (root relative : FilePath) (present : Bool) {target : FilePath}
    → relative ≢ []
    → IsNormal relative
    → resolve_target host root (join root relative) present ≡ ok target
    → (q : FilePath) × (target ≡ root ++ q)
unfolding resolve_target
confined_target host root [] present ne n h = absurd (ne refl)
confined_target host root (c ∷ rest) true {target} ne n h =
    starts_with-append target root (ground arith)
confined_target host root (c ∷ rest) false ne n h = (c ∷ rest, cc (h, join-normal root c rest n.0))

-- Every path that `inspect_path` lets through, for any expectation, is safe in the sense of
-- `IsSafe`: its root is the canonical one, it lies below that root by normal components, as does the
-- resolved target, neither it nor a directory on the way is a symbolic link or holds a `.git`, none of
-- its names is sensitive, and a content hash in the report is that of what stands at the target now.
pub inspect_path-IsSafe :
    (host : Host) (t : PathTarget) (e : PathExpectation) {r : PathSafetyReport}
    → inspect_path host t e ≡ ok r
    → IsSafe host t r
unfolding inspect_components reject_nested_repository
inspect_path-IsSafe host t e {r} h =
    let n =
      not_normal-IsNormal r.relative_path
        (relative_target-normal r.root t.path (Inversion.relative_path host t e h)) in
    let ne = relative_target-ne r.root t.path (Inversion.relative_path host t e h) in
    record {
      canonical = Inversion.canonical_root host t e h;
      non_empty = ne;
      normal_parts = n;
      not_sensitive =
          any-All _ r.relative_path
            (reject_sensitive-names r.relative_path (Inversion.sensitive_checked host t e h));
      link_free = AlongPath-OnPrefixes (IsLinkFree host) r.relative_path r.root (
          inspect_from-IsLinkFree host e r.relative_path r.root n
            (Inversion.components_found host t e h));
      repository_free = AlongPath-OnPrefixes (IsRepositoryFree host) r.relative_path r.root (
          reject_nested-IsRepositoryFree host r.relative_path r.root n
            (Inversion.nested_checked host t e h));
      confined =
          confined_target host r.root r.relative_path r.exists ne n
            (Inversion.target_resolved host t e h);
      hash_fresh =
          fingerprint-fresh host (Inversion.found_metadata host e r) r.target t.expected_hash
            (Inversion.fingerprinted host t e h);
    }

fingerprint-expected :
    (host : Host) (m : Option Metadata) (p : FilePath) (k : Text) {f : PathFingerprint}
    → check_expectation m file ≡ ok tt
    → fingerprint host m p (some k) ≡ ok f
    → f.content_hash ≡ some k
unfolding fingerprint check_expectation
fingerprint-expected host none p k c h = ground arith
fingerprint-expected host (some m) p k c h = ground arith

-- A hash precondition is never skipped: a file that `inspect_path` lets through under an expected
-- hash is reported with that hash, and its content has that hash now.
pub inspect_path-expected_hash :
    (host : Host) (t : PathTarget) (k : Text) {r : PathSafetyReport}
    → t.expected_hash ≡ some k
    → inspect_path host t file ≡ ok r
    → (r.fingerprint.content_hash ≡ some k) × (hashed host r.target ≡ some k)
inspect_path-expected_hash host t k {r} e h =
    let same =
      fingerprint-expected host (Inversion.found_metadata host file r) r.target k
        (Inversion.expectation_met host t file h)
        (rw e at (Inversion.fingerprinted host t file h)) in
    (same, (inspect_path-IsSafe host t file h).hash_fresh k same)
