-- ===== src/Transaction/Writes.antt =====
-- What the writes of Transaction/Mutations.antt do to the workspace of crates/opticcode-tools/src/
-- apply_transaction.rs: to the target, and to nothing else.
use optic_code.FilePath.{FilePath, path_eq}
use optic_code.Prelude.{
  Bool, Bool-cases, Option, ap, arith, false, inl, inr, none, refl, some, true, ℕ, ◌++◌, ◌==◌, ◌∙◌,
  ◌≡◌,
}
use optic_code.Transaction.Logic.{
  Does, Does-bind, Does-call, Does-check_fault, Does-context, Does-gets, Does-lift, Does-pure,
  Does-put_node, IsQuiet,
}
use optic_code.Transaction.Machine.{
  Mode, Node, Tree, World, after, directory, link, missing, regular, special, write_node,
}
use optic_code.Transaction.Model.{ApplyTransactionFile, Content}
use optic_code.Transaction.Mutations.{
  maybe_set, not_a_directory, present_node, restore_permissions, set_permissions, staged_fault,
  sync_directory, with_mode,
}
use optic_code.Transaction.Reads.{Does-metadata, Does-validate_target_location, Read, shown}

-- a predicate on trees that the modes of the file at `p` do not matter to
abbrev pub IsModeBlind : (Tree → Type 0) → FilePath → Type 0
IsModeBlind P p = (t : Tree) (f : Mode → Mode) → P t → P (write_node t p (with_mode f (t p)))

-- `P` before and `Q` after a node that shows `after` has replaced one at `p` that shows `before`
abbrev pub Writes : (Tree → Type 0) → (Tree → Type 0) → FilePath → Content → Content → Type 0
Writes P Q p before after =
    (t : Tree) (n : Node)
    → P t
    → shown (t p) ≡ some before
    → shown n ≡ some after
    → Q (write_node t p n)

pub write_node-at : (t : Tree) (p : FilePath) (n : Node) → write_node t p n p ≡ n
unfolding write_node
write_node-at t p n = elim (Bool-cases (p == p)) [ inl e ↦ rw e refl | inr e ↦ ground arith ]

pub shown-with_mode : (f : Mode → Mode) (n : Node) → shown (with_mode f n) ≡ shown n
shown-with_mode f missing = refl
shown-with_mode f directory = refl
shown-with_mode f link = refl
shown-with_mode f special = refl
shown-with_mode f (regular c m) = refl

module _ (P : Tree → Type 0) (p : FilePath) where
  pub Read-IsModeBlind : (c : Content) → IsModeBlind P p → IsModeBlind (Read P p c) p
  Read-IsModeBlind c blind t f h =
      (blind t f h.0, ap shown (write_node-at t p _) ∙ shown-with_mode f (t p) ∙ h.1)

  pub Writes-Read :
      (Q : Tree → Type 0) (before desired : Content)
      → Writes P Q p before desired
      → Writes P (Read Q p desired) p before desired
  Writes-Read Q before desired writes t n h b a =
      (writes t n h b a, ap shown (write_node-at t p n) ∙ a)

module _ (w : World) (q : IsQuiet w) {P : Tree → Type 0} {E : Tree → Type 0}
    (he : (t : Tree) → P t → E t) where
  pub Does-sync_directory : (p : FilePath) → Does P (sync_directory w p) (λ _. P) E
  unfolding sync_directory
  Does-sync_directory p = Does-context _ _ (Does-call w q he)

  pub Does-present_node : (n : Node) → Does P (present_node n) (λ _. P) E
  Does-present_node missing = Does-lift _ (λ t h a e. cc) he
  Does-present_node directory = Does-pure tt (λ t h. h)
  Does-present_node link = Does-pure tt (λ t h. h)
  Does-present_node special = Does-pure tt (λ t h. h)
  Does-present_node (regular c m) = Does-pure tt (λ t h. h)

  pub Does-not_a_directory : (n : Node) → Does P (not_a_directory n) (λ _. P) E
  Does-not_a_directory directory = Does-lift _ (λ t h a e. cc) he
  Does-not_a_directory missing = Does-pure tt (λ t h. h)
  Does-not_a_directory link = Does-pure tt (λ t h. h)
  Does-not_a_directory special = Does-pure tt (λ t h. h)
  Does-not_a_directory (regular c m) = Does-pure tt (λ t h. h)

  pub Does-staged_fault : (b : Bool) → Does P (staged_fault w b) (λ _. P) E
  Does-staged_fault true = Does-check_fault w q he _
  Does-staged_fault false = Does-pure tt (λ t h. h)

  module _ (workspace relative : FilePath) (blind : IsModeBlind P (workspace ++ relative)) where
    Does-set_permissions :
        (b : Bool) (u : Option ℕ) → Does P (set_permissions w workspace relative b u) (λ _. P) E
    unfolding set_permissions
    Does-set_permissions b u =
        Does-bind _ _ (Does-validate_target_location w q he workspace relative) (λ _.
          Does-bind _ _ (Does-metadata w q he _) (λ n. Does-bind _ _ (Does-present_node n) (λ _.
            Does-bind _ _ (Does-context _ _ (Does-call w q he)) (λ _.
              Does-bind _ _
                (Does-gets {Q = λ n t. P t × (n ≡ t (workspace ++ relative))} _ (λ s h. (h, refl)))
                (λ n. Does-put_node _ _ (λ t h. rw h.1 (blind t _ h.0)))))))

    pub Does-restore_permissions :
        (entry : ApplyTransactionFile)
        → Does P (restore_permissions w workspace relative entry) (λ _. P) E
    unfolding restore_permissions
    Does-restore_permissions entry = set entry.readonly
      where
        set :
            (o : Option Bool) → Does P (maybe_set w workspace relative entry.unix_mode o) (λ _. P) E
        set none = Does-pure tt (λ t h. h)
        set (some b) = Does-set_permissions b _
