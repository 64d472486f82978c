-- ===== src/Transaction/Rechecked.antt =====
-- What `verify_manifest_files_restored` of crates/opticcode-tools/src/apply_transaction.rs tells of the
-- targets.
use optic_code.FilePath.{FilePath}
use optic_code.Prelude.{
  !=-false, All, Bool, List, [], ap, false, not, refl, some, true, ◌!=◌, ◌++◌, ◌∙◌, ◌∷◌, ◌≡◌,
}
use optic_code.Text.{option_text_eq}
use optic_code.Transaction.Logic.{
  Does, Does-bind, Does-bind-lift, Does-if, Does-lift, Does-pure, Does-weaken, IsQuiet,
}
use optic_code.Transaction.Machine.{
  Node, Op, Tree, World, directory, fingerprint_of, link, missing, regular, special,
}
use optic_code.Transaction.Model.{ApplyTransactionFile, FileMutation}
use optic_code.Transaction.Reads.{Does-read_validated_target, Does-symlink_metadata, Read, shown}
use optic_code.Transaction.Recover.{
  and_rest, expect_present, file_restored, mode_restored, verify_manifest_files_restored,
}
use optic_code.Transaction.Restoring.{IsCollisionFree, IsRecordOf}
use optic_code.Transaction.Undone.{Recorded}

module _ (w : World) (q : IsQuiet w) (free : IsCollisionFree w) (workspace : FilePath) where
  Does-expect_present :
      (P : Tree → Type 0) {E : Tree → Type 0}
      → ((t : Tree) → P t → E t)
      → (p : FilePath) (n : Node) → Does P (expect_present p n) (λ _. P) E
  Does-expect_present P hp p missing = Does-lift _ (λ t h a e. cc) hp
  Does-expect_present P hp p directory = Does-pure tt (λ t h. h)
  Does-expect_present P hp p link = Does-pure tt (λ t h. h)
  Does-expect_present P hp p special = Does-pure tt (λ t h. h)
  Does-expect_present P hp p (regular c m) = Does-pure tt (λ t h. h)

  Does-mode_restored :
      (P : Tree → Type 0) {E : Tree → Type 0}
      → ((t : Tree) → P t → E t)
      → (p : FilePath) (e : ApplyTransactionFile) → Does P (mode_restored w p e) (λ _. P) E
  unfolding mode_restored
  Does-mode_restored P hp p e =
      Does-if (not e.existed_before) _ _ (λ _. Does-pure true (λ t h. h))
        (λ _.
          Does-bind _ _
            (Does-weaken _ (Does-symlink_metadata w q hp p) (λ t h. h) (λ n t h. h.0) (λ t h. h))
            (λ n. Does-bind _ _ (Does-expect_present P hp p n) (λ _. Does-pure _ (λ t h. h))))

  Does-file_restored :
      (P : Tree → Type 0) {E : Tree → Type 0}
      → ((t : Tree) → P t → E t)
      → (m : FileMutation) (e : ApplyTransactionFile)
      → IsRecordOf w m.path m.expected_before m.desired_after e
      → Does P
          (file_restored w workspace e)
          (λ b t. P t × (b ≡ true → shown (t (workspace ++ m.path)) ≡ some m.expected_before))
          E
  unfolding file_restored
  Does-file_restored P hp m e known = Does-bind-lift _ m.path _ known.spelled (
      Does-bind _ _ (Does-read_validated_target w q hp workspace m.path) (λ c.
        Does-if (fingerprint_of w c != e.before_hash) _ _
          (λ _. Does-pure false (λ t h. (h.0, λ x. cc)))
          (λ d.
            Does-weaken _
              (Does-mode_restored (Read P (workspace ++ m.path) c) (λ t h. hp t h.0) _ e) (λ t h. h)
              (λ b t h. (
                h.0,
                λ _.
                    h.1 ∙ ap some (free c m.expected_before (!=-false _ _ d ∙ known.hashed_before)),
              ))
              (λ t h. h))))

  Does-and_rest :
      (P X Y : Tree → Type 0) {E : Tree → Type 0} (rest : Op Bool)
      → Does (λ t. P t × X t) rest (λ c t. (P t × X t) × (c ≡ true → Y t)) E
      → (b : Bool)
      → Does
          (λ t. P t × (b ≡ true → X t))
          (and_rest w rest b)
          (λ c t. P t × (c ≡ true → X t × Y t))
          E
  Does-and_rest P X Y rest d true =
      Does-weaken _ d (λ t h. (h.0, h.1 refl)) (λ c t h. (h.0.0, λ e. (h.0.1, h.1 e))) (λ t h. h)
  Does-and_rest P X Y rest d false = Does-pure false (λ t h. (h.0, λ e. cc))

  pub Does-verify_manifest_files_restored :
      (P : Tree → Type 0) {E : Tree → Type 0}
      → ((t : Tree) → P t → E t)
      → (ms : List FileMutation) (es : List ApplyTransactionFile) → Recorded w ms es
      → Does P
          (verify_manifest_files_restored w workspace es)
          (λ b t.
            P t
            × (b ≡ true → All (λ m. shown (t (workspace ++ m.path)) ≡ some m.expected_before) ms))
          E
  unfolding verify_manifest_files_restored
  Does-verify_manifest_files_restored P hp [] [] known = Does-pure true (λ t h. (h, λ _. tt))
  Does-verify_manifest_files_restored P hp [] (e ∷ es) known = elim known [ ]
  Does-verify_manifest_files_restored P hp (m ∷ ms) [] known = elim known [ ]
  Does-verify_manifest_files_restored P hp (m ∷ ms) (e ∷ es) (first, others) =
      Does-bind _ _ (Does-file_restored P hp m e first) (
        Does-and_rest P (λ t. shown (t (workspace ++ m.path)) ≡ some m.expected_before)
          (λ t. All (λ m. shown (t (workspace ++ m.path)) ≡ some m.expected_before) ms) _
          (Does-verify_manifest_files_restored
            (λ t. P t × (shown (t (workspace ++ m.path)) ≡ some m.expected_before))
            (λ t h. hp t h.0) ms es others))
