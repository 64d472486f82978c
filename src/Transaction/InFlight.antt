-- ===== src/Transaction/InFlight.antt =====
-- The states of a workspace between the first write and the end of a transaction of
-- crates/opticcode-tools/src/apply_transaction.rs.
use mathlib.Core.List.{append_cancel_left}
use optic_code.FilePath.{FilePath, FilePath-discrete, path_eq}
use optic_code.Prelude.{
  ==-true, Among, Bool-cases, List, inl, inr, refl, some, sym, ◌++◌, ◌==◌, ◌∙◌, ◌≡◌, ◌≢◌, ◌⊎◌,
}
use optic_code.Transaction.Machine.{Node, Tree, write_node}
use optic_code.Transaction.Model.{FileMutation}
use optic_code.Transaction.Mutations.{with_mode}
use optic_code.Transaction.Reads.{shown}
use optic_code.Transaction.Writes.{IsModeBlind, Writes, shown-with_mode, write_node-at}

-- Mutations with one path are one mutation.
abbrev pub IsDistinct : List FileMutation → Type 0
IsDistinct ms = (a b : FileMutation) → Among a ms → Among b ms → a.path ≡ b.path → a ≡ b

-- A node has the content from before the mutation, or the one that it writes.
abbrev pub IsBetween : FileMutation → Node → Type 0
IsBetween m n = (shown n ≡ some m.expected_before) ⊎ (shown n ≡ some m.desired_after)

-- Every target has its content from before or the desired one, and nothing else was touched.
pub record InFlight (before : Tree) (workspace : FilePath) (ms : List FileMutation) (t : Tree)
    : Type 0 where
  pub untouched :
      (p : FilePath) → ((m : FileMutation) → Among m ms → workspace ++ m.path ≢ p) → t p ≡ before p
  pub between : (m : FileMutation) → Among m ms → IsBetween m (t (workspace ++ m.path))

pub write_node-other : (t : Tree) (p r : FilePath) (n : Node) → p ≢ r → write_node t p n r ≡ t r
unfolding write_node
write_node-other t p r n h = elim (Bool-cases (r == p)) [
  | inl e ↦ elim (h (sym (==-true r p e))) [ ]
  | inr e ↦ rw e refl
]

-- What a rollback needs of a predicate to keep it.
pub record IsRestorable (P : Tree → Type 0) (workspace : FilePath) (ms : List FileMutation)
    : Type 0 where
  pub blind : (m : FileMutation) → Among m ms → IsModeBlind P (workspace ++ m.path)
  pub restores :
      (m : FileMutation)
      → Among m ms
      → Writes P P (workspace ++ m.path) m.desired_after m.expected_before

module _ (workspace : FilePath) (ms : List FileMutation) (distinct : IsDistinct ms) where
  same_target :
      (a b : FileMutation)
      → Among a ms
      → Among b ms
      → workspace ++ a.path ≡ workspace ++ b.path
      → a ≡ b
  same_target a b ia ib e = distinct a b ia ib (append_cancel_left workspace a.path b.path e)

  -- a property of the targets survives a write that establishes it at one of them
  pub write-elsewhere :
      (X : FileMutation → Node → Type 0) (t : Tree) (m : FileMutation)
      → Among m ms
      → (n : Node) → X m n
      → (a : FileMutation) → Among a ms
      → X a (t (workspace ++ a.path))
      → X a (write_node t (workspace ++ m.path) n (workspace ++ a.path))
  write-elsewhere X t m im n x a ia y =
      elim (FilePath-discrete (workspace ++ m.path) (workspace ++ a.path)) [
        | yes e ↦
            rw (sym (same_target m a im ia e)) (rw (write_node-at t (workspace ++ m.path) n) x)
        | no ne ↦ rw (write_node-other t (workspace ++ m.path) (workspace ++ a.path) n ne) y
      ]

  module _ (before : Tree) where
    pub InFlight-write :
        (t : Tree) (m : FileMutation) (n : Node)
        → Among m ms
        → InFlight before workspace ms t
        → IsBetween m n
        → InFlight before workspace ms (write_node t (workspace ++ m.path) n)
    InFlight-write t m n im h b = record {
      untouched = λ p ne. write_node-other t (workspace ++ m.path) p n (ne m im) ∙ h.untouched p ne;
      between = λ a ia. write-elsewhere IsBetween t m im n b a ia (h.between a ia);
    }

    pub InFlight-IsModeBlind :
        (m : FileMutation)
        → Among m ms
        → IsModeBlind (InFlight before workspace ms) (workspace ++ m.path)
    InFlight-IsModeBlind m im t f h = InFlight-write t m _ im h (same (h.between m im))
      where
        same :
            IsBetween m (t (workspace ++ m.path))
            → IsBetween m (with_mode f (t (workspace ++ m.path)))
        same (inl e) = inl (shown-with_mode f _ ∙ e)
        same (inr e) = inr (shown-with_mode f _ ∙ e)

    pub InFlight-desires :
        (m : FileMutation)
        → Among m ms
        → Writes
            (InFlight before workspace ms)
            (InFlight before workspace ms)
            (workspace ++ m.path)
            m.expected_before
            m.desired_after
    InFlight-desires m im t n h b a = InFlight-write t m n im h (inr a)

    pub InFlight-IsRestorable : IsRestorable (InFlight before workspace ms) workspace ms
    InFlight-IsRestorable = record {
      blind = InFlight-IsModeBlind;
      restores = λ m im t n h b a. InFlight-write t m n im h (inl a);
    }

  abbrev pub IsRestored : FileMutation → Tree → Type 0
  IsRestored m t = shown (t (workspace ++ m.path)) ≡ some m.expected_before

  -- what was restored stays restored
  pub IsRestorable-IsRestored :
      (P : Tree → Type 0)
      → IsRestorable P workspace ms
      → (m : FileMutation) → Among m ms
      → IsRestorable (λ t. P t × IsRestored m t) workspace ms
  IsRestorable-IsRestored P h m im = record {
    blind = λ a ia t f k. (
      h.blind a ia t f k.0,
      write-elsewhere (λ b n. shown n ≡ shown (t (workspace ++ b.path))) t a ia _
            (shown-with_mode f _) m im refl
          ∙ k.1,
    );
    restores = λ a ia t n k b x. (
      h.restores a ia t n k.0 b x,
      write-elsewhere (λ b n. shown n ≡ some b.expected_before) t a ia n x m im k.1,
    );
  }
