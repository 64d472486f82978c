-- ===== src/Transaction/Applying.antt =====
-- What `atomic_replace_bytes_checked` and `apply_mutation` of crates/opticcode-tools/src/
-- apply_transaction.rs do to the workspace.
use optic_code.FilePath.{FilePath}
use optic_code.Prelude.{Bool, err, false, is_some, none, refl, some, true, ◌++◌, ◌≡◌}
use optic_code.Text.{Text}
use optic_code.Transaction.Logic.{
  Does, Does-bind, Does-call, Does-context, Does-gets, Does-lift, Does-match, Does-modify,
  Does-pure, Does-put_node, Does-raise_if, IsQuiet,
}
use optic_code.Transaction.Machine.{◌>>◌, StagingFile, Tree, World, lift}
use optic_code.Transaction.Model.{ApplyTransactionFile, Content, Failure, FileMutation}
use optic_code.Transaction.Mutations.{
  apply_mutation, atomic_replace_bytes_checked, delete_target, discard, or_discard, publish,
  remove_file, replace_staged, write_or_delete, write_synced_file, write_target,
}
use optic_code.Transaction.Reads.{
  Does-read_validated_target, Does-validate_target_location, Read, matched_content,
}
use optic_code.Transaction.Writes.{
  Does-not_a_directory, Does-present_node, Does-restore_permissions, Does-staged_fault,
  Does-sync_directory, IsModeBlind, Writes,
}

module _ (w : World) (q : IsQuiet w) {P : Tree → Type 0} {Q : Tree → Type 0} {E : Tree → Type 0}
    (hp : (t : Tree) → P t → E t) (hq : (t : Tree) → Q t → E t) where
  Does-publish :
      (p : FilePath) (before : Content) (content : Text)
      → Writes P Q p before (some content)
      → Does (Read P p before) (publish w p content) (λ _. Q) E
  unfolding publish
  Does-publish p before content writes = Does-bind _ _ (Does-call w q (λ t h. hp t h.0)) (λ _.
      Does-bind _ _ (Does-gets {Q = λ _. Read P p before} _ (λ s h. h)) (λ n.
        Does-bind _ _ (Does-not_a_directory w q (λ t h. hp t h.0) n)
          (λ _. Does-put_node _ _ (λ t h. writes t _ h.0 h.1 refl))))

  pub Does-remove_file :
      (p : FilePath) (before : Content)
      → Writes P Q p before none
      → Does (Read P p before) (remove_file w p) (λ _. Q) E
  unfolding remove_file
  Does-remove_file p before writes = Does-bind _ _ (Does-call w q (λ t h. hp t h.0)) (λ _.
      Does-bind _ _ (Does-gets {Q = λ _. Read P p before} _ (λ s h. h)) (λ n.
        Does-bind _ _ (Does-present_node w q (λ t h. hp t h.0) n) (λ _.
          Does-bind _ _ (Does-not_a_directory w q (λ t h. hp t h.0) n)
            (λ _. Does-put_node _ _ (λ t h. writes t _ h.0 h.1 refl)))))

  module _ (workspace relative : FilePath) where
    pub Does-atomic_replace :
        (content : Text) (expected : Content) (faults : Bool)
        → Writes P Q (workspace ++ relative) expected (some content)
        → Does P
            (atomic_replace_bytes_checked w workspace relative content expected faults)
            (λ _. Q)
            E
    unfolding atomic_replace_bytes_checked replace_staged write_synced_file or_discard discard
    Does-atomic_replace content expected faults writes =
        Does-bind _ _ (Does-validate_target_location w q hp workspace relative) (λ _.
          Does-bind _ _ (Does-gets {Q = λ _. P} _ (λ s h. h)) (λ n. Does-bind _ _ (staged _) (λ _.
            Does-bind _ _
              (Does-match _ _ _ replaced (λ e. failed e _) (λ _. Does-pure tt (λ t h. h)))
              (λ _.
                Does-bind _ _ (Does-modify {Q = λ _. Q} _ (λ s h. h))
                  (λ _. Does-sync_directory w q hq _)))))
      where
        staged : (temp : StagingFile) → Does P (write_synced_file w temp) (λ _. P) E
        staged temp =
            Does-bind _ _ (Does-call w q hp)
              (λ _. Does-bind _ _ (Does-modify {Q = λ _. P} _ (λ s h. h)) (λ _. Does-call w q hp))

        replaced : Does P (replace_staged w workspace relative content expected faults) (λ _. Q) E
        replaced = Does-bind _ _ (Does-staged_fault w q hp faults) (λ _.
            Does-bind _ _ (Does-read_validated_target w q hp workspace relative) (λ c.
              Does-bind _ _ (Does-raise_if _ _ _ (matched_content _ _) (λ t h. hp t h.0))
                (λ _. Does-context _ _ (Does-publish _ expected content writes))))

        failed :
            (e : Failure) (temp : StagingFile)
            → Does {A = Unit} E (discard w temp >> lift (err e)) (λ _. Q) E
        failed e temp =
            Does-bind _ _
              (Does-match _ _ _ (Does-call w q (λ t h. h)) (λ x. Does-pure tt (λ t h. h))
                (λ _. Does-modify _ (λ s h. h)))
              (λ _. Does-lift _ (λ t h a x. cc) (λ t h. h))

module _ (w : World) (q : IsQuiet w) {P : Tree → Type 0} {Q : Tree → Type 0} {E : Tree → Type 0}
    (hp : (t : Tree) → P t → E t) (hq : (t : Tree) → Q t → E t) (workspace : FilePath)
    (m : FileMutation) (entry : ApplyTransactionFile)
    (blind : IsModeBlind Q (workspace ++ m.path)) where
  Does-write_target :
      (content : Text)
      → Writes P Q (workspace ++ m.path) m.expected_before (some content)
      → Does P
          (write_target w workspace m content entry)
          (λ _. Read Q (workspace ++ m.path) (some content))
          E
  unfolding write_target
  Does-write_target content writes =
      Does-bind _ _
        (Does-context _ _ (Does-atomic_replace w q hp hq workspace m.path content _ true writes))
        (λ _. Does-bind _ _ (Does-restore_permissions w q hq workspace m.path blind entry) (λ _.
          Does-bind _ _ (Does-read_validated_target w q hq workspace m.path)
            (λ c. Does-raise_if _ _ _ (matched_content _ _) (λ t h. hq t h.0))))

  Does-delete_target :
      Writes P Q (workspace ++ m.path) m.expected_before none
      → Does P (delete_target w workspace m) (λ _. Read Q (workspace ++ m.path) none) E
  unfolding delete_target
  Does-delete_target writes =
      Does-bind _ _ (Does-read_validated_target w q hp workspace m.path) (λ c.
        Does-bind _ _ (Does-raise_if _ _ _ (matched_content _ _) (λ t h. hp t h.0)) (λ _.
          Does-bind _ _ (Does-context _ _ (Does-remove_file w q hp hq _ m.expected_before writes))
            (λ _. Does-bind _ _ (Does-sync_directory w q hq _) (λ _.
              Does-bind _ _ (Does-read_validated_target w q hq workspace m.path)
                (λ c. Does-raise_if _ _ _ (none_left c) (λ t h. hq t h.0))))))
    where
      none_left :
          (c : Content)
          → is_some c ≡ false
          → (t : Tree) → Read Q (workspace ++ m.path) c t
          → Read Q (workspace ++ m.path) none t
      none_left none e t h = h
      none_left (some c) e t h = cc

  -- The mutation is written as a whole or not at all, and a return means that it was.
  pub Does-apply_mutation :
      Writes P Q (workspace ++ m.path) m.expected_before m.desired_after
      → Does P
          (apply_mutation w workspace m entry)
          (λ _. Read Q (workspace ++ m.path) m.desired_after)
          E
  unfolding apply_mutation
  Does-apply_mutation writes =
      Does-bind _ _ (Does-read_validated_target w q hp workspace m.path) (λ c.
        Does-bind _ _ (Does-raise_if {Q = λ _. P} _ _ _ (λ e t h. h.0) (λ t h. hp t h.0))
          (λ _. by_content m.desired_after writes))
    where
      by_content :
          (after : Content)
          → Writes P Q (workspace ++ m.path) m.expected_before after
          → Does P
              (write_or_delete w workspace m entry after)
              (λ _. Read Q (workspace ++ m.path) after)
              E
      by_content none h = Does-delete_target h
      by_content (some content) h = Does-write_target content h
