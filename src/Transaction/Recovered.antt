-- ===== src/Transaction/Recovered.antt =====
-- What `rollback_apply_transaction` of crates/opticcode-tools/src/apply_transaction.rs does to a
-- workspace that an execution has left.
use mathlib.Core.Path.{subst}
use optic_code.FilePath
use optic_code.FilePath.{FilePath, as_os_str, component_eq, normal}
use optic_code.Prelude.{
  ==-refl, ==-true, All, Among, Among-All, Bool-cases, List, Option, [], ap, false, inl, inr, ok,
  refl, some, sym, to_option, true, ◌++◌, ◌==◌, ◌∙◌, ◌∷◌, ◌≡◌, ◌≢◌, ◌⊎◌,
}
use optic_code.Text.{Text}
use optic_code.Transaction.Directories.{opticcode_dir}
use optic_code.Transaction.InFlight.{
  IsBetween, IsDistinct, IsRestorable, write-elsewhere, write_node-other,
}
use optic_code.Transaction.Inspect.{
  Entry, RunView, absent, conclude_inspection, directory_entry, file_entry, inspect_entries,
  inspect_manifest, invalid_inspection, other_entry, unknown, without_manifest,
}
use optic_code.Transaction.Machine.{Tree, World}
use optic_code.Transaction.Model.{ApplyTransactionManifest, Content, FileMutation}
use optic_code.Transaction.Outside.{IsLocal}
use optic_code.Transaction.Reads.{shown}
use optic_code.Transaction.TargetPaths.{IsTarget}
use optic_code.Transaction.Targets.{metadata_name}
use optic_code.Transaction.Writes.{shown-with_mode}

starts_with-prefix :
    (p r t : FilePath) → FilePath.starts_with (p ++ r) (p ++ t) ≡ FilePath.starts_with r t
unfolding FilePath.starts_with
starts_with-prefix [] r t = refl
starts_with-prefix (c ∷ p) r t = rw (==-refl c) (starts_with-prefix p r t)

-- A target is not below `.opticcode`.
pub IsTarget-aside :
    (workspace r : FilePath)
    → IsTarget r
    → FilePath.starts_with (workspace ++ r) (opticcode_dir workspace) ≡ false
unfolding FilePath.starts_with
IsTarget-aside workspace r h =
    starts_with-prefix workspace r (normal metadata_name ∷ []) ∙ other_name r h
  where
    other_name :
        (r : FilePath) → IsTarget r → FilePath.starts_with r (normal metadata_name ∷ []) ≡ false
    other_name [] h = refl
    other_name (c ∷ r) h = elim (Bool-cases (◌==◌ ⦃e = component_eq⦄ c (normal metadata_name))) [
      | inl e ↦
          let named = ==-true ⦃e = component_eq⦄ c (normal metadata_name) e in
          cc (ap as_os_str named, ==-refl metadata_name, h.free_name)
      | inr e ↦ rw e refl
    ]

-- every target has its content from before or the desired one
abbrev pub Between : FilePath → List FileMutation → Tree → Type 0
Between workspace ms t = (m : FileMutation) → Among m ms → IsBetween m (t (workspace ++ m.path))

module _ (workspace : FilePath) (ms : List FileMutation) (distinct : IsDistinct ms) where
  pub Between-IsRestorable : IsRestorable (Between workspace ms) workspace ms
  Between-IsRestorable = record {
    blind = λ m im t f h a ia.
        subst (as_shown a)
          (sym (
            write-elsewhere workspace ms distinct (λ b n. shown n ≡ shown (t (workspace ++ b.path)))
              t m im _ (shown-with_mode f _) a ia refl))
          (h a ia);
    restores = λ m im t n h b x a ia.
        write-elsewhere workspace ms distinct IsBetween t m im n (inl x) a ia (h a ia);
  }
    where
      as_shown : FileMutation → Option Content → Type 0
      as_shown a o = (o ≡ some a.expected_before) ⊎ (o ≡ some a.desired_after)

  pub Between-IsLocal : All (λ m. IsTarget m.path) ms → IsLocal (Between workspace ms) workspace
  Between-IsLocal targets t p n below h a ia =
      subst (IsBetween a) (sym (write_node-other t p (workspace ++ a.path) n apart)) (h a ia)
    where
      apart : p ≢ workspace ++ a.path
      apart e = true_not_false (
          sym below
          ∙ ap (λ (x : FilePath). FilePath.starts_with x (opticcode_dir workspace)) e
          ∙ IsTarget-aside workspace a.path (Among-All (λ m. IsTarget m.path) ms targets a ia))
        where
          true_not_false : true ≢ false
          true_not_false e = cc

pub inspected_manifest :
    (w : World) (id : Text) (workspace : FilePath) (view : RunView) (run found : Entry)
    {m x : ApplyTransactionManifest}
    → view.manifest_json ≡ ok m
    → (inspect_entries w id workspace view run found).manifest ≡ some x
    → x ≡ m
unfolding inspect_entries invalid_inspection without_manifest inspect_manifest conclude_inspection
inspected_manifest w id workspace view directory_entry absent e h = cc
inspected_manifest w id workspace view directory_entry file_entry e h = cc (ap to_option e, h)
inspected_manifest w id workspace view directory_entry (unknown message) e h = cc
inspected_manifest w id workspace view directory_entry directory_entry e h = cc
inspected_manifest w id workspace view directory_entry other_entry e h = cc
inspected_manifest w id workspace view absent found e h = cc
inspected_manifest w id workspace view (unknown message) found e h = cc
inspected_manifest w id workspace view file_entry found e h = cc
inspected_manifest w id workspace view other_entry found e h = cc
