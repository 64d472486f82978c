-- ===== src/Transaction/Foreign.antt =====
-- A target whose content nobody accounts for: `apply_mutation` and `restore_transaction_file` of
-- crates/opticcode-tools/src/apply_transaction.rs refuse it.
use optic_code.FilePath.{FilePath}
use optic_code.Prelude.{
  !=-false, ==-true, Result, ap, err, ok, refl, some, sym, ◌++◌, ◌==◌, ◌∙◌, ◌≡◌, ◌≢◌,
}
use optic_code.Text.{option_text_eq}
use optic_code.Transaction.Logic.{
  Does, Does-bind, Does-bind-lift, Does-if, Does-raise_if, Ends, IsQuiet,
}
use optic_code.Transaction.Machine.{Machine, Op, Tree, World, fingerprint_of}
use optic_code.Transaction.Model.{ApplyTransactionFile, Content, Failure}
use optic_code.Transaction.Mutations.{restore_changed, restore_transaction_file}
use optic_code.Transaction.Reads.{Does-read_validated_target, Read, shown}
use optic_code.Transaction.Targets.{validate_relative_path}

-- an operation that fails on every machine with this tree, and leaves the tree
abbrev Refuses : {A : Type 0} → Op A → Machine → Type 0
Refuses m s = (e : Failure) × (s' : Machine) × (m s ≡ (err e, s')) × (s'.tree ≡ s.tree)

refused :
    {A : Type 0} (m : Op A) (s : Machine)
    → Does (λ t. t ≡ s.tree) m (λ _ _. ⊥) (λ t. t ≡ s.tree)
    → Refuses m s
refused {A} m s d = by_outcome (m s) refl (d.at s refl)
  where
    by_outcome :
        (out : Result Failure A × Machine)
        → m s ≡ out
        → Ends (λ _ _. ⊥) (λ t. t ≡ s.tree) out
        → Refuses m s
    by_outcome (ok a, s') e h = elim h [ ]
    by_outcome (err x, s') e h = (x, s', e, h)

Does-absurd :
    {A : Type 0} {P : Tree → Type 0} {Q : A → Tree → Type 0} {E : Tree → Type 0} (m : Op A)
    → ((t : Tree) → P t → ⊥)
    → Does P m Q E
Does-absurd m h = record { at = λ s p. elim (h s.tree p) [ ] }

module _ (w : World) (q : IsQuiet w) (s : Machine) (workspace : FilePath) (c : Content) where
  abbrev Same : Tree → Type 0
  Same t = t ≡ s.tree

  keep : (t : Tree) → Same t → Same t
  keep t h = h

  content_known :
      (p : FilePath)
      → shown (s.tree p) ≡ some c
      → (d : Content) (t : Tree) → Read Same p d t
      → d ≡ c
  content_known p stands d t h = some_inj (sym h.1 ∙ ap (λ (x : Tree). shown (x p)) h.0 ∙ stands)
    where
      some_inj : some d ≡ some c → d ≡ c
      some_inj e = cc

  -- In a workspace that nobody else writes to, a target that has neither the content from before nor
  -- the one that the transaction left, told by their fingerprints, is not restored: the restoration
  -- fails and changes nothing.
  pub restore_transaction_file-foreign :
      (entry : ApplyTransactionFile) (relative : FilePath)
      → validate_relative_path (w.parse_path entry.path) ≡ ok relative
      → shown (s.tree (workspace ++ relative)) ≡ some c
      → fingerprint_of w c ≢ entry.before_hash
      → fingerprint_of w c ≢ entry.after_hash
      → (e : Failure) × (s' : Machine) × (restore_transaction_file w workspace entry s
          ≡ (err e, s'))
        × (s'.tree ≡ s.tree)
  unfolding restore_transaction_file restore_changed
  restore_transaction_file-foreign entry relative spelled stands not_before not_after =
      refused (restore_transaction_file w workspace entry) s (
        Does-bind-lift _ relative _ spelled (
          Does-bind _ _ (Does-read_validated_target w q keep workspace relative) (λ d.
            Does-if (fingerprint_of w d == entry.before_hash) _ _
              (λ e. Does-absurd _ (λ t h.
                not_before
                  (ap (fingerprint_of w) (sym (content_known _ stands d t h)) ∙ ==-true _ _ e)))
              (λ _. changed d))))
    where
      changed :
          (d : Content)
          → Does
              (Read Same (workspace ++ relative) d)
              (restore_changed w workspace relative entry d)
              (λ _ _. ⊥)
              Same
      changed d =
          Does-bind _ _
            (Does-raise_if {Q = λ _ _. ⊥} _ _ _
              (λ x t h.
                not_after
                  (ap (fingerprint_of w) (sym (content_known _ stands d t h)) ∙ !=-false _ _ x))
              (λ t h. h.0))
            (λ _. Does-absurd _ (λ t h. h))
