-- ===== src/Transaction/Undone.antt =====
-- What the restoring loop of `rollback_manifest` in crates/opticcode-tools/src/apply_transaction.rs does
-- to the workspace.
use mathlib.Core.List.{reverse}
use optic_code.FilePath.{FilePath}
use optic_code.Prelude.{
  All, All-of_reverse_aux, All-reverse_aux, Among, Bool, List, Result, [], false, inl, inr, ok,
  refl, some, sym, true, ◌++◌, ◌∙◌, ◌∷◌, ◌≡◌,
}
use optic_code.Transaction.InFlight.{IsDistinct, IsRestorable, IsRestorable-IsRestored}
use optic_code.Transaction.Logic.{
  Does, Does-at_first, Does-bind, Does-check_fault, Does-match, Does-pure, Does-weaken, IsQuiet,
}
use optic_code.Transaction.Machine.{Tree, World}
use optic_code.Transaction.Model.{ApplyTransactionFile, Failure, FileMutation}
use optic_code.Transaction.Reads.{shown}
use optic_code.Transaction.Restoring.{Does-restore_transaction_file, IsCollisionFree, IsRecordOf}
use optic_code.Transaction.Rollback.{restore_all, restore_each}

-- the records of a manifest describe the mutations, in their order
abbrev pub Recorded : World → List FileMutation → List ApplyTransactionFile → Type 0
Recorded w [] [] = Unit
Recorded w [] (e ∷ es) = ⊥
Recorded w (m ∷ ms) [] = ⊥
Recorded w (m ∷ ms) (e ∷ es) =
    IsRecordOf w m.path m.expected_before m.desired_after e × Recorded w ms es

module _ (w : World) (q : IsQuiet w) (free : IsCollisionFree w) (workspace : FilePath)
    (ms : List FileMutation) (distinct : IsDistinct ms) where
  abbrev pub Describes : FileMutation → ApplyTransactionFile → Type 0
  Describes m e = IsRecordOf w m.path m.expected_before m.desired_after e

  abbrev pub IsKnown : ApplyTransactionFile → Type 0
  IsKnown e = (m : FileMutation) × Among m ms × Describes m e

  -- the target that a record describes is as it was
  abbrev pub IsUndone : Tree → ApplyTransactionFile → Type 0
  IsUndone t e =
      (m : FileMutation)
      → Among m ms
      → Describes m e
      → shown (t (workspace ++ m.path)) ≡ some m.expected_before

  described_once :
      (e : ApplyTransactionFile) (a b : FileMutation)
      → Among a ms
      → Among b ms
      → Describes a e
      → Describes b e
      → a ≡ b
  described_once e a b ia ib da db = distinct a b ia ib (same (sym da.spelled ∙ db.spelled))
    where
      same : ◌≡◌ {A = Result Failure FilePath} (ok a.path) (ok b.path) → a.path ≡ b.path
      same h = cc

  Does-restore_each :
      (P : Tree → Type 0) {E : Tree → Type 0}
      → IsRestorable P workspace ms
      → (es : List ApplyTransactionFile) → All IsKnown es
      → (first : Bool)
      → Does P
          (restore_each w workspace first es)
          (λ r t. P t × (r.errors ≡ [] → All (IsUndone t) es))
          E
  unfolding restore_each
  Does-restore_each P h [] known first = Does-pure _ (λ t k. (k, λ _. tt))
  Does-restore_each P h (e ∷ es) ((m, im, de), known) first =
      Does-match _ _ _
        (Does-restore_transaction_file w q {E = P} (λ t k. k) workspace m.path m.expected_before
          m.desired_after e free de (h.blind m im) (h.restores m im))
        (λ x. Does-pure _ (λ t k. (k, λ c. cc)))
        (λ _.
          Does-match _ _ _
            (Does-at_first w q
              {E = λ t. P t × (shown (t (workspace ++ m.path)) ≡ some m.expected_before)} (λ t k. k)
              first _)
            (λ x. Does-pure _ (λ t k. (k.0, λ c. cc)))
            (λ _.
              Does-bind _ _
                (Does-restore_each
                  (λ t. P t × (shown (t (workspace ++ m.path)) ≡ some m.expected_before))
                  (IsRestorable-IsRestored workspace ms distinct P h m im) es known false)
                (λ others. Does-pure _ (λ t k. (
                  k.0.0,
                  λ c. (λ a ia da. rw (sym (described_once e m a im ia de da)) k.0.1, k.1 c),
                )))))

  pub Does-restore_all :
      (P : Tree → Type 0) {E : Tree → Type 0}
      → IsRestorable P workspace ms
      → (es : List ApplyTransactionFile) → All IsKnown es
      → Does P (restore_all w workspace es) (λ r t. P t × (r.errors ≡ [] → All (IsUndone t) es)) E
  unfolding restore_all
  Does-restore_all P h es known =
      Does-match _ _ _ (Does-check_fault w q {E = P} (λ t k. k) _)
        (λ x. Does-pure _ (λ t k. (k, λ c. cc)))
        (λ _.
          Does-weaken _
            (Does-restore_each P h (reverse es) (All-reverse_aux IsKnown es [] known tt) true)
            (λ t k. k) (λ r t k. (k.0, λ c. (All-of_reverse_aux (IsUndone t) es [] (k.1 c)).0))
            (λ t k. k))

  pub Recorded-IsKnown :
      (sub : List FileMutation) (es : List ApplyTransactionFile)
      → ((m : FileMutation) → Among m sub → Among m ms)
      → Recorded w sub es
      → All IsKnown es
  Recorded-IsKnown [] [] inside h = tt
  Recorded-IsKnown [] (e ∷ es) inside h = elim h [ ]
  Recorded-IsKnown (m ∷ sub) [] inside h = elim h [ ]
  Recorded-IsKnown (m ∷ sub) (e ∷ es) inside h =
      ((m, inside m (inl refl), h.0), Recorded-IsKnown sub es (λ a ia. inside a (inr ia)) h.1)

  pub Recorded-IsRestored :
      (t : Tree) (sub : List FileMutation) (es : List ApplyTransactionFile)
      → ((m : FileMutation) → Among m sub → Among m ms)
      → Recorded w sub es
      → All (IsUndone t) es
      → All (λ m. shown (t (workspace ++ m.path)) ≡ some m.expected_before) sub
  Recorded-IsRestored t [] [] inside h u = tt
  Recorded-IsRestored t [] (e ∷ es) inside h u = elim h [ ]
  Recorded-IsRestored t (m ∷ sub) [] inside h u = elim h [ ]
  Recorded-IsRestored t (m ∷ sub) (e ∷ es) inside h u = (
    u.0 m (inside m (inl refl)) h.0,
    Recorded-IsRestored t sub es (λ a ia. inside a (inr ia)) h.1 u.1,
  )
