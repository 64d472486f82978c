-- ===== src/Transaction/BackedUp.antt =====
-- What `back_up` and the writes of the run directory in crates/opticcode-tools/src/apply_transaction.rs
-- tell: the records of the manifest describe the mutations and the targets.
use optic_code.FilePath.{FilePath}
use optic_code.Prelude.{
  !=-false, All, Bool, List, Option, Result, [], ap, err, false, if◌then◌else◌, is_some, nat_eq,
  none, ok, refl, some, true, ℕ, ◌++◌, ◌+◌, ◌==◌, ◌∷◌, ◌≡◌,
}
use optic_code.Text.{Text, option_text_eq}
use optic_code.Transaction.Appends.{Does-write_new_atomic}
use optic_code.Transaction.Logic.{
  Answers, Does, Does-attempt, Does-bind, Does-call, Does-check_fault, Does-context, Does-gets,
  Does-given, Does-pure, Does-raise_if, Does-weaken, IsQuiet,
}
use optic_code.Transaction.Machine.{Mode, Node, Tree, World, check_fault, fingerprint_of, pure}
use optic_code.Transaction.Model.{
  ApplyTransactionRequest, Content, Failure, FileMutation, GitStateSnapshot, after_first_backup,
}
use optic_code.Transaction.Prepare.{back_up, file_record, write_artifact, write_backup, write_run}
use optic_code.Transaction.Reads.{
  Does-metadata, Does-read_optional_regular_file, Read, matched_content, shown,
}
use optic_code.Transaction.Restoring.{IsRecordOf}
use optic_code.Transaction.Targets.{portable, validate_relative_path}
use optic_code.Transaction.Undone.{Recorded}
use optic_code.Transaction.Writes.{Does-sync_directory}

-- the spelling of a target in the manifest is read back as the same target
abbrev pub IsSpelledBack : World → FileMutation → Type 0
IsSpelledBack w m = validate_relative_path (w.parse_path (portable m.path)) ≡ ok m.path

pub file_record-IsRecordOf :
    (w : World) (index : ℕ) (m : FileMutation) (c : Content) (mode : Option Mode)
    → IsSpelledBack w m
    → c ≡ m.expected_before
    → IsRecordOf w m.path m.expected_before m.desired_after (file_record w index m c mode)
unfolding file_record
file_record-IsRecordOf w index m c mode spelled e = record {
  spelled = spelled;
  existed = ap is_some e;
  hashed_before = ap (fingerprint_of w) e;
  hashed_after = refl;
}

module _ (w : World) (q : IsQuiet w) where
  Does-write_artifact :
      (P : Tree → Type 0) {E : Tree → Type 0}
      → ((t : Tree) → P t → E t)
      → (p : FilePath) (content : Text) → Does P (write_artifact w p content) (λ _. P) E
  unfolding write_artifact
  Does-write_artifact P hp p content = Does-write_new_atomic w q hp _ _ (λ s. refl)

  Does-write_backup :
      (P : Tree → Type 0) {E : Tree → Type 0}
      → ((t : Tree) → P t → E t)
      → (index : ℕ) (c : Content) → Does P (write_backup w index c) (λ _. P) E
  Does-write_backup P hp index none = Does-pure tt (λ t h. h)
  Does-write_backup P hp index (some content) =
      Does-context _ _ (Does-write_artifact P hp _ content)

  Does-first_backup :
      (P : Tree → Type 0) {E : Tree → Type 0}
      → ((t : Tree) → P t → E t)
      → (b : Bool) → Does P (if b then check_fault w after_first_backup else pure tt) (λ _. P) E
  Does-first_backup P hp true = Does-check_fault w q hp _
  Does-first_backup P hp false = Does-pure tt (λ t h. h)

  pub Does-back_up :
      (P : Tree → Type 0) {E : Tree → Type 0}
      → ((t : Tree) → P t → E t)
      → (workspace : FilePath) (index : ℕ) (ms : List FileMutation) → All (IsSpelledBack w) ms
      → Does P
          (back_up w workspace index ms)
          (λ es t.
            P t
            × Recorded w ms es
            × All (λ m. shown (t (workspace ++ m.path)) ≡ some m.expected_before) ms)
          E
  unfolding back_up
  Does-back_up P hp workspace index [] spelled = Does-pure _ (λ t h. (h, tt, tt))
  Does-back_up P hp workspace index (m ∷ ms) spelled =
      Does-bind _ _ (Does-read_optional_regular_file w q hp (workspace ++ m.path)) (λ c.
        Does-bind _ _
          (Does-raise_if {Q = λ _ t. Found t × (c ≡ m.expected_before)} _ _ _
            (λ d t h. (matched_content P _ d t h, !=-false _ _ d)) (λ t h. hp t h.0))
          (λ _. Does-given _ _ (λ same.
            Does-bind _ _ (Does-attempt _ (Does-metadata w q {E = Found} (λ t h. h) _)) (λ found.
              Does-bind _ _
                (Does-weaken _ (Does-write_backup Found (λ t h. hp t h.0) index c) (kept found)
                  (λ a t h. h) (λ t h. h))
                (λ _. Does-bind _ _ (Does-first_backup Found (λ t h. hp t h.0) (index == 0)) (λ _.
                  Does-bind _ _
                    (Does-back_up Found (λ t h. hp t h.0) workspace (index + 1) ms spelled.1)
                    (λ others. Does-pure _ (λ t h. (
                      h.0.0,
                      (file_record-IsRecordOf w index m c _ spelled.0 same, h.1),
                      (h.0.1, h.2),
                    )))))))))
    where
      Found : Tree → Type 0
      Found = Read P (workspace ++ m.path) m.expected_before

      kept : (r : Result Failure Node) (t : Tree) → Answers (λ _. Found) Found r t → Found t
      kept (ok a) t h = h
      kept (err e) t h = h

  pub Does-write_run :
      (P : Tree → Type 0) {E : Tree → Type 0}
      → ((t : Tree) → P t → E t)
      → (request : ApplyTransactionRequest) (workspace : FilePath) (ms : List FileMutation)
        (git : Option GitStateSnapshot) (id : Text)
      → All (IsSpelledBack w) ms
      → Does P
          (write_run w request workspace ms git id)
          (λ manifest t.
            P t
            × Recorded w ms manifest.files
            × All (λ m. shown (t (workspace ++ m.path)) ≡ some m.expected_before) ms)
          E
  unfolding write_run
  Does-write_run P hp request workspace ms git id spelled =
      Does-bind _ _ (Does-context _ _ (Does-call w q hp)) (λ _.
        Does-bind _ _ (Does-context _ _ (Does-call w q hp)) (λ _.
          Does-bind _ _ (Does-sync_directory w q hp _) (λ _.
            Does-bind _ _ (Does-context _ _ (Does-write_artifact P hp _ _)) (λ _.
              Does-bind _ _ (Does-back_up P hp workspace 0 ms spelled) (λ files.
                Does-bind _ _ (Does-call w q (λ t h. hp t h.0)) (λ _.
                  Does-bind _ _
                    (Does-gets
                      {Q = λ _ t.
                        P t
                        × Recorded w ms files
                        × All (λ m. shown (t (workspace ++ m.path)) ≡ some m.expected_before) ms}
                      _ (λ s h. h))
                    (λ now.
                      Does-bind _ _
                        (Does-context _ _
                          (Does-write_new_atomic w q (λ t h. hp t h.0) _ _ (λ s. refl)))
                        (λ _. Does-pure _ (λ t h. h)))))))))
