-- ===== src/Transaction/TargetPaths.antt =====
-- The paths that `validate_relative_path` of crates/opticcode-tools/src/apply_transaction.rs lets
-- through.
use mathlib.Core.Path.{subst}
use optic_code.FilePath.{FilePath, cur_dir, is_absolute, is_normal, normal, parent_dir, root_dir}
use optic_code.Prelude.{
  All, Bool-cases, Option-cases, [], false, inl, inr, is_empty, ok, refl, some, true, ◌||◌, ◌∷◌,
  ◌≡◌,
}
use optic_code.Transaction.Targets.{is_reserved, normalized_parts, validate_relative_path}

normalized_parts-normal :
    (p : FilePath) {r : FilePath} → normalized_parts p ≡ some r → All (λ c. is_normal c ≡ true) r
unfolding normalized_parts
normalized_parts-normal [] h = subst (All (λ c. is_normal c ≡ true)) {x = []} (cc) tt
normalized_parts-normal (root_dir ∷ p) h = cc
normalized_parts-normal (parent_dir ∷ p) h = cc
normalized_parts-normal (cur_dir ∷ p) {r} h = elim (Option-cases (normalized_parts p)) [
  | inl (parts, e) ↦
      let h1 = rw e at h in subst (All (λ c. is_normal c ≡ true)) (cc) (normalized_parts-normal p e)
  | inr e ↦ let h1 = rw e at h in cc
]
normalized_parts-normal (normal n ∷ p) {r} h = elim (Option-cases (normalized_parts p)) [
  | inl (parts, e) ↦
      let h1 = rw e at h in
      subst (All (λ c. is_normal c ≡ true)) {x = normal n ∷ parts} (cc)
        (refl, normalized_parts-normal p e)
  | inr e ↦ let h1 = rw e at h in cc
]

normalized_parts-fixed :
    (r : FilePath) → All (λ c. is_normal c ≡ true) r → normalized_parts r ≡ some r
unfolding normalized_parts
normalized_parts-fixed [] h = refl
normalized_parts-fixed (root_dir ∷ r) h = cc
normalized_parts-fixed (cur_dir ∷ r) h = cc
normalized_parts-fixed (parent_dir ∷ r) h = cc
normalized_parts-fixed (normal n ∷ r) h = rw (normalized_parts-fixed r h.1) refl

-- A path that is let through has only normal components, at least one, and none is `.opticcode`.
pub record IsTarget (r : FilePath) : Type 0 where
  pub normal_parts : All (λ c. is_normal c ≡ true) r
  pub free_name : is_reserved r ≡ false

pub validate_relative_path-IsTarget :
    (p : FilePath) {r : FilePath} → validate_relative_path p ≡ ok r → IsTarget r
unfolding validate_relative_path
validate_relative_path-IsTarget p {r} h = elim (Bool-cases (is_empty p || is_absolute p)) [
  | inl e ↦ let h1 = rw e at h in cc
  | inr e ↦
      let h1 = rw e at h in
      elim (Option-cases (normalized_parts p)) [
        | inr n ↦ let h2 = rw n at h1 in cc
        | inl (parts, n) ↦
            let h2 = rw n at h1 in
            elim (Bool-cases (is_reserved parts)) [
              | inl k ↦ let h3 = rw k at h2 in cc
              | inr k ↦
                  let h3 = rw k at h2 in
                  subst IsTarget (cc)
                    (record { normal_parts = normalized_parts-normal p n; free_name = k })
            ]
      ]
]

-- A path that was let through is let through as it is.
pub validate_relative_path-fixed : (r : FilePath) → IsTarget r → validate_relative_path r ≡ ok r
unfolding validate_relative_path
validate_relative_path-fixed [] h = cc
validate_relative_path-fixed (root_dir ∷ r) h = cc
validate_relative_path-fixed (cur_dir ∷ r) h = cc
validate_relative_path-fixed (parent_dir ∷ r) h = cc
validate_relative_path-fixed (normal n ∷ r) h =
    rw (normalized_parts-fixed (normal n ∷ r) h.normal_parts) (rw h.free_name refl)
