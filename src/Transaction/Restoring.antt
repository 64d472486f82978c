-- ===== src/Transaction/Restoring.antt =====
-- What `restore_transaction_file` of crates/opticcode-tools/src/apply_transaction.rs does to the
-- workspace: a file that the transaction left gets its content from before, another is refused.
use optic_code.FilePath.{FilePath}
use optic_code.Prelude.{
  !=-false, ==-true, Option, ap, false, if◌then◌else◌, is_some, is_some-false, none, ok, refl, some,
  sym, ◌++◌, ◌∙◌, ◌≡◌,
}
use optic_code.Text.{Text, option_text_eq, text_eq}
use optic_code.Transaction.Applying.{Does-atomic_replace, Does-remove_file}
use optic_code.Transaction.Logic.{
  Does, Does-bind, Does-bind-lift, Does-call, Does-context, Does-gets, Does-given, Does-if,
  Does-lift, Does-pure, Does-raise, Does-raise_if, Does-weaken, IsQuiet,
}
use optic_code.Transaction.Machine.{Tree, World, fingerprint_bytes, fingerprint_of, pure}
use optic_code.Transaction.Model.{ApplyTransactionFile, Content}
use optic_code.Transaction.Mutations.{
  or_no_file, or_raise, read_artifact, remove_created, restore_backup, restore_changed,
  restore_left, restore_permissions, restore_transaction_file, write_back,
}
use optic_code.Transaction.Reads.{Does-read_validated_target, Read, matched_content}
use optic_code.Transaction.Targets.{validate_relative_path}
use optic_code.Transaction.Writes.{
  Does-restore_permissions, Does-sync_directory, IsModeBlind, Read-IsModeBlind, Writes, Writes-Read,
}

-- No two contents have one BLAKE3 fingerprint.
abbrev pub IsCollisionFree : World → Type 0
IsCollisionFree w = (a b : Content) → fingerprint_of w a ≡ fingerprint_of w b → a ≡ b

-- The record of a file that held `before`, and that the transaction leaves with `after`.
pub record IsRecordOf (w : World) (relative : FilePath) (before after : Content)
    (entry : ApplyTransactionFile) : Type 0 where
  pub spelled : validate_relative_path (w.parse_path entry.path) ≡ ok relative
  pub existed : entry.existed_before ≡ is_some before
  pub hashed_before : entry.before_hash ≡ fingerprint_of w before
  pub hashed_after : entry.after_hash ≡ fingerprint_of w after

module _ (w : World) (q : IsQuiet w) {P : Tree → Type 0} {E : Tree → Type 0}
    (hp : (t : Tree) → P t → E t) where
  Does-or_raise :
      (o : Option Text) (message : Text)
      → Does P (or_raise w o message) (λ t s. P s × (o ≡ some t)) E
  Does-or_raise none message = Does-raise _ _ hp
  Does-or_raise (some t) message = Does-pure t (λ s h. (h, refl))

  Does-read_artifact : (p : FilePath) → Does P (read_artifact w p) (λ _. P) E
  unfolding read_artifact
  Does-read_artifact p =
      Does-bind _ _ (Does-call w q hp)
        (λ _. Does-bind _ _ (Does-gets {Q = λ _. P} _ (λ s h. h)) answer)
    where
      answer : (o : Option Text) → Does P (or_no_file o) (λ _. P) E
      answer none = Does-lift _ (λ t h a e. cc) hp
      answer (some t) = Does-pure t (λ s h. h)

  module _ (workspace relative : FilePath) (before after : Content) (entry : ApplyTransactionFile)
      (free : IsCollisionFree w) (known : IsRecordOf w relative before after entry)
      (blind : IsModeBlind P (workspace ++ relative))
      (writes : Writes P P (workspace ++ relative) after before) where
    abbrev Restored : Tree → Type 0
    Restored = Read P (workspace ++ relative) before

    -- a content with the recorded fingerprint is the one from before
    same_content : (c : Content) → fingerprint_of w c ≡ entry.before_hash → c ≡ before
    same_content c e = free c before (e ∙ known.hashed_before)

    Does-write_back :
        (content expected : Text)
        → entry.before_hash ≡ some expected
        → Does P (write_back w workspace relative entry after content expected) (λ _. Restored) E
    unfolding write_back
    Does-write_back content expected e =
        Does-bind _ _
          (Does-raise_if {Q = λ _ t. P t × (fingerprint_bytes w content ≡ expected)} _ _ _
            (λ d t h. (h, !=-false _ _ d)) hp)
          (λ _. Does-given _ _ (λ hashed.
            Does-bind _ _
              (Does-context _ _ (
                Does-atomic_replace w q {Q = P} hp hp workspace relative content after false
                  (rw (same_content (some content) (ap some hashed ∙ sym e)) writes)))
              (λ _.
                Does-bind _ _ (Does-restore_permissions w q hp workspace relative blind entry) (λ _.
                  Does-bind _ _ (Does-read_validated_target w q hp workspace relative) (λ c.
                    Does-raise_if _ _ _
                      (λ d t h. (h.0, h.1 ∙ ap some (same_content c (!=-false _ _ d ∙ sym e))))
                      (λ t h. hp t h.0))))))

    Does-restore_backup : Does P (restore_backup w workspace relative entry after) (λ _. Restored) E
    unfolding restore_backup
    Does-restore_backup = Does-bind _ _ (Does-or_raise entry.backup_path _) (λ name.
        Does-given _ _ (λ _. Does-bind _ _ (Does-lift {Q = λ _. P} _ (λ t h a e. h) hp) (λ backup.
          Does-bind _ _ (Does-context _ _ (Does-read_artifact backup)) (λ content.
            Does-bind _ _ (Does-or_raise entry.before_hash _)
              (λ expected. Does-given _ _ (Does-write_back content expected))))))

    Does-remove_created :
        before ≡ none
        → Does P
            (remove_created w workspace relative entry after)
            (λ _. Read P (workspace ++ relative) before)
            E
    unfolding remove_created
    Does-remove_created new =
        Does-bind _ _ (Does-read_validated_target w q hp workspace relative) (λ c.
          Does-bind _ _ (Does-raise_if _ _ _ (matched_content _ _) (λ t h. hp t h.0)) (λ _.
            Does-bind _ _
              (Does-context _ _ (
                Does-remove_file w q {Q = Read P (workspace ++ relative) before} hp
                  (λ t h. hp t h.0) _ after (rw (sym new) (Writes-Read P _ P after before writes))))
              (λ _. Does-sync_directory w q (λ t h. hp t h.0) _)))

    Does-restore_left :
        Does
          (Read P (workspace ++ relative) after)
          (restore_left w workspace relative entry after)
          (λ _. Restored)
          E
    unfolding restore_left
    Does-restore_left =
        Does-if _ _ _ (λ e. Does-weaken _ Does-restore_backup (λ t h. h.0) (λ a t h. h) (λ t h. h))
          (λ old.
            Does-if _ _ _
              (λ e.
                Does-weaken _ (Does-remove_created (new old)) (λ t h. h.0) (λ a t h. h) (λ t h. h))
              (λ e.
                Does-pure tt (λ t h. (h.0, h.1 ∙ ap some (is_some-false after e ∙ sym (new old))))))
      where
        new : entry.existed_before ≡ false → before ≡ none
        new old = is_some-false before (sym known.existed ∙ old)

    Does-restore_changed :
        (c : Content)
        → Does
            (Read P (workspace ++ relative) c)
            (restore_changed w workspace relative entry c)
            (λ _. Restored)
            E
    unfolding restore_changed
    Does-restore_changed c =
        Does-bind _ _
          (Does-raise_if {Q = λ _ t. Read P (workspace ++ relative) c t × (c ≡ after)} _ _ _
            (λ d t h. (h, free c after (!=-false _ _ d ∙ known.hashed_after))) (λ t h. hp t h.0))
          (λ _. Does-given _ _ (λ e. rw e Does-restore_left))

    -- A return means that the file has the content from before.
    pub Does-restore_transaction_file :
        Does P (restore_transaction_file w workspace entry) (λ _. Restored) E
    unfolding restore_transaction_file
    Does-restore_transaction_file = Does-bind-lift _ relative _ known.spelled (
        Does-bind _ _ (Does-read_validated_target w q hp workspace relative) (λ c.
          Does-if _ _ _
            (λ e.
              Does-weaken _ unchanged (λ t h. (h.0, h.1 ∙ ap some (same_content c (==-true _ _ e))))
                (λ a t h. h) (λ t h. h))
            (λ e. Does-restore_changed c)))
      where
        unchanged :
            Does Restored
              (if entry.existed_before
                then restore_permissions w workspace relative entry
                else pure tt)
              (λ _. Restored)
              E
        unchanged =
            Does-if _ _ _
              (λ e.
                Does-restore_permissions w q (λ t h. hp t h.0) workspace relative
                  (Read-IsModeBlind P _ before blind) entry)
              (λ e. Does-pure tt (λ t h. h))
