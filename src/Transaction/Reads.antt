-- ===== src/Transaction/Reads.antt =====
-- What the reads of Transaction/Targets.antt tell of the workspace of crates/opticcode-tools/src/
-- apply_transaction.rs, and that they change nothing.
use optic_code.FilePath.{FilePath}
use optic_code.Prelude.{
  !=-false, Bool, Option, Result, [], ap, err, false, none, ok, refl, some, sym, ◌!=◌, ◌++◌, ◌∙◌,
  ◌∷◌, ◌≡◌,
}
use optic_code.Text.{option_text_eq}
use optic_code.Transaction.Logic.{
  Answers, Does, Does-attempt, Does-bind, Does-call, Does-context, Does-gets, Does-lift, Does-pure,
  Does-raise, Does-raise_if, Does-weaken, Does-with_kind, IsQuiet,
}
use optic_code.Transaction.Machine.{
  Node, Tree, World, directory, link, metadata, missing, pure, regular, special, symlink_metadata,
}
use optic_code.Transaction.Model.{Content, Failure}
use optic_code.Transaction.Targets.{
  canonical, check_entries, check_entry, file_content, found_directory, is_dir, parent_below,
  read_file, read_node, read_optional_regular_file, read_validated_target, resolved_or_raise,
  validate_target_location,
}

-- The content that a node shows to `read_optional_regular_file`, if it answers at all.
abbrev pub shown : Node → Option Content
shown missing = some none
shown (regular content _) = some (some content)
shown directory = none
shown link = none
shown special = none

-- after a read of `p` that answered `c`
abbrev pub Read : (Tree → Type 0) → FilePath → Content → Tree → Type 0
Read P p c t = P t × (shown (t p) ≡ some c)

pub matched_content :
    (P : Tree → Type 0) (p : FilePath) {c expected : Content}
    → (c != expected) ≡ false
    → (t : Tree) → Read P p c t
    → Read P p expected t
matched_content P p {c} {expected} e t h = (h.0, h.1 ∙ ap some (!=-false c expected e))

module _ (w : World) (q : IsQuiet w) {P : Tree → Type 0} {E : Tree → Type 0}
    (he : (t : Tree) → P t → E t) where
  abbrev Still : {A : Type 0} → A → Tree → Type 0
  Still a = P

  abbrev Found : FilePath → Node → Tree → Type 0
  Found p n t = P t × (n ≡ t p)

  found_error : (p : FilePath) (n : Node) (t : Tree) → Found p n t → E t
  found_error p n t h = he t h.0

  pub Does-symlink_metadata : (p : FilePath) → Does P (symlink_metadata w p) (Found p) E
  Does-symlink_metadata p = Does-bind _ _ (Does-call w q he) (λ _. Does-gets _ (λ s h. (h, refl)))

  pub Does-metadata : (p : FilePath) → Does P (metadata w p) Still E
  Does-metadata p = Does-bind _ _ (Does-call w q he) (λ _. Does-gets _ (λ s h. h))

  Does-check_entry :
      (p : FilePath) (b : Bool) (n : Node) → Does (Found p n) (check_entry p b n) Still E
  unfolding check_entry
  Does-check_entry p b missing = Does-raise_if _ _ _ (λ _ t h. h.0) (found_error p _)
  Does-check_entry p b link = Does-raise _ _ (found_error p _)
  Does-check_entry p b directory = Does-raise_if _ _ _ (λ _ t h. h.0) (found_error p _)
  Does-check_entry p b special = Does-raise _ _ (found_error p _)
  Does-check_entry p b (regular _ _) = Does-raise_if _ _ _ (λ _ t h. h.0) (found_error p _)

  Does-check_entries : (p rest : FilePath) → Does P (check_entries w p rest) Still E
  unfolding check_entries
  Does-check_entries p [] = Does-pure tt (λ t h. h)
  Does-check_entries p (c ∷ rest) =
      Does-bind _ _ (Does-context _ _ (Does-symlink_metadata (p ++ c ∷ [])))
        (λ n. Does-bind _ _ (Does-check_entry _ _ n) (λ _. Does-check_entries (p ++ c ∷ []) rest))

  Does-answer :
      (r : Result Failure Node) → Does (Answers Still P r) (pure (found_directory r)) Still E
  Does-answer (ok n) = Does-pure _ (λ t h. h)
  Does-answer (err e) = Does-pure _ (λ t h. h)

  pub Does-canonical : (p : FilePath) → Does P (canonical w p) Still E
  unfolding canonical
  Does-canonical p =
      Does-bind _ _ (Does-call w q he)
        (λ _. Does-bind _ _ (Does-gets {Q = Still} _ (λ s h. h)) resolve)
    where
      resolve : (o : Option FilePath) → Does P (resolved_or_raise p o) Still E
      resolve none = Does-lift _ (λ t h a e. cc) he
      resolve (some r) = Does-pure r (λ t h. h)

module _ (w : World) (q : IsQuiet w) {P : Tree → Type 0} {E : Tree → Type 0}
    (he : (t : Tree) → P t → E t) where
  pub Does-is_dir : (p : FilePath) → Does P (is_dir w p) (λ _. P) E
  unfolding is_dir
  Does-is_dir p =
      Does-bind _ _ (Does-attempt _ (Does-metadata w q {E = P} (λ t h. h) p))
        (λ r. Does-answer w q he r)

  pub Does-validate_target_location :
      (workspace path : FilePath) → Does P (validate_target_location w workspace path) (λ _. P) E
  unfolding validate_target_location
  Does-validate_target_location workspace path =
      Does-bind _ _ (Does-lift {Q = λ _. P} _ (λ t h a e. h) he) (λ relative.
        Does-bind _ _ (Does-check_entries w q he workspace relative) (λ _.
          Does-bind _ _ (Does-is_dir (parent_below workspace relative)) (λ present.
            Does-bind _ _ (Does-raise_if {Q = λ _. P} _ _ _ (λ _ t h. h) he) (λ _.
              Does-bind _ _ (Does-with_kind _ _ _ (Does-canonical w q he _))
                (λ _. Does-raise_if _ _ _ (λ _ t h. h) he)))))

  pub Does-read_file : (p : FilePath) → Does P (read_file w p) (λ c. Read P p (some c)) E
  unfolding read_file
  Does-read_file p =
      Does-bind _ _ (Does-call w q he)
        (λ _. Does-bind _ _ (Does-gets {Q = λ n t. P t × (n ≡ t p)} _ (λ s h. (h, refl))) answer)
    where
      no_file : (t : Tree) {n : Node} → P t × (n ≡ t p) → E t
      no_file t h = he t h.0

      answer : (n : Node) → Does (λ t. P t × (n ≡ t p)) (file_content n) (λ c. Read P p (some c)) E
      answer (regular c m) = Does-pure c (λ t h. (h.0, ap shown (sym h.1)))
      answer missing = Does-lift _ (λ t h a e. cc) (λ t h. he t h.0)
      answer directory = Does-lift _ (λ t h a e. cc) (λ t h. he t h.0)
      answer link = Does-lift _ (λ t h a e. cc) (λ t h. he t h.0)
      answer special = Does-lift _ (λ t h a e. cc) (λ t h. he t h.0)

  Does-read_node :
      (p : FilePath) (n : Node) → Does (λ t. P t × (n ≡ t p)) (read_node w p n) (λ c. Read P p c) E
  unfolding read_node
  Does-read_node p missing = Does-pure none (λ t h. (h.0, ap shown (sym h.1)))
  Does-read_node p (regular c m) =
      Does-bind _ _
        (Does-context _ _ (Does-weaken _ (Does-read_file p) (λ t h. h.0) (λ c t h. h) (λ t h. h)))
        (λ c. Does-pure (some c) (λ t h. h))
  Does-read_node p directory = Does-raise _ _ (λ t h. he t h.0)
  Does-read_node p link = Does-raise _ _ (λ t h. he t h.0)
  Does-read_node p special = Does-raise _ _ (λ t h. he t h.0)

  pub Does-read_optional_regular_file :
      (p : FilePath) → Does P (read_optional_regular_file w p) (Read P p) E
  unfolding read_optional_regular_file
  Does-read_optional_regular_file p =
      Does-bind _ _ (Does-context _ _ (Does-symlink_metadata w q he p)) (λ n. Does-read_node p n)

  pub Does-read_validated_target :
      (workspace relative : FilePath)
      → Does P (read_validated_target w workspace relative) (Read P (workspace ++ relative)) E
  unfolding read_validated_target
  Does-read_validated_target workspace relative =
      Does-bind _ _ (Does-validate_target_location workspace relative)
        (λ _. Does-read_optional_regular_file (workspace ++ relative))

  -- a path that is canonicalized the same way in every workspace
  pub Does-located_at :
      (p r : FilePath)
      → ((t : Tree) → w.canonicalize t p ≡ some r)
      → Does P (canonical w p) (λ x t. P t × (x ≡ r)) E
  unfolding canonical
  Does-located_at p r located = Does-bind _ _ (Does-call w q he) (λ _.
      Does-bind _ _ (Does-gets {Q = λ o t. P t × (o ≡ some r)} _ (λ s h. (h, located s.tree)))
        answer)
    where
      some_inj : (x : FilePath) → some x ≡ some r → x ≡ r
      some_inj x e = cc

      answer :
          (o : Option FilePath)
          → Does (λ t. P t × (o ≡ some r)) (resolved_or_raise p o) (λ x t. P t × (x ≡ r)) E
      answer none = Does-lift _ (λ t h a e. cc) (λ t h. he t h.0)
      answer (some x) = Does-pure x (λ t h. (h.0, some_inj x h.1))
