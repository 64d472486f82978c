-- ===== src/Transaction/Sorted.antt =====
-- What `validate_and_sort_mutations` of crates/opticcode-tools/src/apply_transaction.rs answers.
use mathlib.Core.Path.{subst}
use optic_code.FilePath.{FilePath}
use optic_code.Prelude.{
  All, Among, Bool-cases, List, [], ap, contains, contains-Among, false, inl, inr, ok, refl, sym,
  ◌==◌, ◌∙◌, ◌∷◌, ◌≡◌, ◌≢◌, ◌⊎◌,
}
use optic_code.Text.{Text, option_text_eq, text_eq}
use optic_code.Transaction.InFlight.{IsDistinct}
use optic_code.Transaction.Logic.{
  Does, Does-bind, Does-given, Does-lift, Does-pure, Does-raise_if, IsQuiet,
}
use optic_code.Transaction.Machine.{Tree, World}
use optic_code.Transaction.Model.{FileMutation}
use optic_code.Transaction.Reads.{Does-validate_target_location}
use optic_code.Transaction.Sorting.{insert_mutation, normalized_mutations, path_lt, sort_mutations}
use optic_code.Transaction.TargetPaths.{IsTarget, validate_relative_path-IsTarget}
use optic_code.Transaction.Targets.{portable, validate_relative_path}

-- the names of the targets are new and distinct
abbrev pub HasNewNames : List Text → List FileMutation → Type 0
HasNewNames seen [] = Unit
HasNewNames seen (m ∷ ms) =
    (contains seen (portable m.path) ≡ false) × HasNewNames (portable m.path ∷ seen) ms

not_seen :
    (seen : List Text) (ms : List FileMutation)
    → HasNewNames seen ms
    → (m : FileMutation) → Among m ms
    → (name : Text) → Among name seen
    → portable m.path ≢ name
not_seen seen [] h m i name _ p = elim i [ ]
not_seen seen (a ∷ ms) h m (inl e) name i p =
    let h0 = h.0 in
    let in_seen =
      contains-Among seen (portable a.path)
        (subst (λ n. Among n seen) (sym p ∙ ap (λ (x : FileMutation). portable x.path) e) i) in
    cc
not_seen seen (a ∷ ms) h m (inr j) name i p =
    not_seen (portable a.path ∷ seen) ms h.1 m j name (inr i) p

pub HasNewNames-IsDistinct :
    (seen : List Text) (ms : List FileMutation) → HasNewNames seen ms → IsDistinct ms
HasNewNames-IsDistinct seen [] h a b i _ p = elim i [ ]
HasNewNames-IsDistinct seen (m ∷ ms) h a b (inl ea) (inl eb) p = ea ∙ sym eb
HasNewNames-IsDistinct seen (m ∷ ms) h a b (inl ea) (inr ib) p =
    elim (not_seen (portable m.path ∷ seen) ms h.1 b ib (portable m.path) (inl refl)
      (ap portable (sym p) ∙ ap (λ (x : FileMutation). portable x.path) ea)) [ ]
HasNewNames-IsDistinct seen (m ∷ ms) h a b (inr ia) (inl eb) p =
    elim (not_seen (portable m.path ∷ seen) ms h.1 a ia (portable m.path) (inl refl)
      (ap portable p ∙ ap (λ (x : FileMutation). portable x.path) eb)) [ ]
HasNewNames-IsDistinct seen (m ∷ ms) h a b (inr ia) (inr ib) p =
    HasNewNames-IsDistinct (portable m.path ∷ seen) ms h.1 a b ia ib p

-- a normalized mutation: it stands for one of the request, at the path that was let through
abbrev pub Stands : FileMutation → FileMutation → Type 0
Stands m n =
    (validate_relative_path m.path ≡ ok n.path)
    × (n.expected_before ≡ m.expected_before)
    × (n.desired_after ≡ m.desired_after)

-- the mutations of a request and the normalized ones, one by one
abbrev pub StandFor : List FileMutation → List FileMutation → Type 0
StandFor [] [] = Unit
StandFor [] (n ∷ ns) = ⊥
StandFor (m ∷ ms) [] = ⊥
StandFor (m ∷ ms) (n ∷ ns) = Stands m n × StandFor ms ns

-- what the loop has checked of the normalized mutations
pub record IsNormalized (seen : List Text) (ms ns : List FileMutation) : Type 0 where
  pub stand : StandFor ms ns
  pub names : HasNewNames seen ns
  pub targets : All (λ n. IsTarget n.path) ns
  pub changes : All (λ n. (n.expected_before == n.desired_after) ≡ false) ns

module _ (w : World) (q : IsQuiet w) {P : Tree → Type 0} {E : Tree → Type 0}
    (hp : (t : Tree) → P t → E t) (workspace : FilePath) where
  pub Does-normalized_mutations :
      (seen : List Text) (ms : List FileMutation)
      → Does P (normalized_mutations w workspace seen ms) (λ ns t. P t × IsNormalized seen ms ns) E
  unfolding normalized_mutations
  Does-normalized_mutations seen [] =
      Does-pure _ (λ t h. (h, record { stand = tt; names = tt; targets = tt; changes = tt }))
  Does-normalized_mutations seen (m ∷ ms) =
      Does-bind _ _
        (Does-lift {Q = λ p t. P t × (validate_relative_path m.path ≡ ok p)} _ (λ t h p e. (h, e))
          hp)
        (λ path. Does-given _ _ (λ valid.
          Does-bind _ _ (Does-validate_target_location w q hp workspace path) (λ _.
            Does-bind _ _
              (Does-raise_if {Q = λ _ t. P t × (contains seen (portable path) ≡ false)} _ _ _
                (λ e t h. (h, e)) hp)
              (λ _. Does-given _ _ (λ new.
                Does-bind _ _
                  (Does-raise_if {Q = λ _ t. P t × ((m.expected_before == m.desired_after) ≡ false)}
                    _ _ _ (λ e t h. (h, e)) hp)
                  (λ _. Does-given _ _ (λ changed.
                    Does-bind _ _ (Does-normalized_mutations (portable path ∷ seen) ms) (λ others.
                      Does-pure _ (λ t h. (
                        h.0,
                        record {
                          stand = ((valid, refl, refl), h.1.stand);
                          names = (new, h.1.names);
                          targets = (validate_relative_path-IsTarget m.path valid, h.1.targets);
                          changes = (changed, h.1.changes);
                        },
                      ))))))))))

Among-insert :
    (n : FileMutation) (l : List FileMutation) (m : FileMutation)
    → Among m (insert_mutation n l)
    → (m ≡ n) ⊎ Among m l
unfolding insert_mutation
Among-insert n [] m i = i
Among-insert n (a ∷ l) m i = elim (Bool-cases (path_lt a.path n.path)) [
  | inl e ↦ later (Among-insert n l m) (rw e at i)
  | inr e ↦ rw e at i
]
  where
    later :
        (Among m (insert_mutation n l) → (m ≡ n) ⊎ Among m l)
        → Among m (a ∷ insert_mutation n l)
        → (m ≡ n) ⊎ Among m (a ∷ l)
    later ih (inl e) = inr (inl e)
    later ih (inr i) = elim (ih i) [ inl e ↦ inl e | inr j ↦ inr (inr j) ]

Among-of_insert :
    (n : FileMutation) (l : List FileMutation) (m : FileMutation)
    → (m ≡ n) ⊎ Among m l
    → Among m (insert_mutation n l)
unfolding insert_mutation
Among-of_insert n [] m i = i
Among-of_insert n (a ∷ l) m i = elim (Bool-cases (path_lt a.path n.path)) [
  | inl e ↦ rw e (later (Among-of_insert n l m) i)
  | inr e ↦ rw e i
]
  where
    later :
        ((m ≡ n) ⊎ Among m l → Among m (insert_mutation n l))
        → (m ≡ n) ⊎ Among m (a ∷ l)
        → Among m (a ∷ insert_mutation n l)
    later ih (inl e) = inr (ih (inl e))
    later ih (inr (inl e)) = inl e
    later ih (inr (inr j)) = inr (ih (inr j))

pub Among-sort : (l : List FileMutation) (m : FileMutation) → Among m (sort_mutations l) → Among m l
unfolding sort_mutations
Among-sort [] m i = i
Among-sort (a ∷ l) m i = elim (Among-insert a (sort_mutations l) m i) [
  | inl e ↦ inl e
  | inr j ↦ inr (Among-sort l m j)
]

pub Among-of_sort :
    (l : List FileMutation) (m : FileMutation) → Among m l → Among m (sort_mutations l)
unfolding sort_mutations
Among-of_sort [] m i = i
Among-of_sort (a ∷ l) m (inl e) = Among-of_insert a (sort_mutations l) m (inl e)
Among-of_sort (a ∷ l) m (inr i) = Among-of_insert a (sort_mutations l) m (inr (Among-of_sort l m i))
