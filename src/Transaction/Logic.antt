-- ===== src/Transaction/Logic.antt =====
-- Triples over the workspace for the operations of Transaction/Machine.antt: what holds of the tree
-- before, and after a return and after an error. The calls of the host may fail at any point.
use mathlib.Core.Path.{subst}
use optic_code.FilePath.{FilePath}
use optic_code.Prelude.{
  Bool, Bool-cases, Result, err, false, if◌then◌else◌, inl, inr, map_err, ok, refl, true, ℕ, ◌≡◌,
}
use optic_code.Text.{Text}
use optic_code.Transaction.Machine.{
  Machine, Node, Op, Tree, World, after, at_first, attempt, call, check_fault, context, gets,
  kinded, lift, modify, on_result, prefixed, pure, put_node, raise, raise_if, with_kind, write_node,
  ◌>>=◌,
}
use optic_code.Transaction.Model.{ApplyFaultPoint, ApplyTransactionErrorKind, Failure}

-- Nobody else writes to the workspace.
abbrev pub IsQuiet : World → Type 0
IsQuiet w = (n : ℕ) (t : Tree) → w.meddle n t ≡ t

-- `Q` of what a run returned with the tree that it left, or `E` of that tree after an error
abbrev pub Ends :
    {A : Type 0} → (A → Tree → Type 0) → (Tree → Type 0) → Result Failure A × Machine → Type 0
Ends Q E (ok a, s) = Q a s.tree
Ends Q E (err _, s) = E s.tree

pub record Does {A : Type 0} (P : Tree → Type 0) (m : Op A) (Q : A → Tree → Type 0)
    (E : Tree → Type 0) : Type 0 where
  pub at : (s : Machine) → P s.tree → Ends Q E (m s)

-- the postcondition of a run that is known to have returned, and of one that has not
pub Ends-ok :
    {A : Type 0} (Q : A → Tree → Type 0) (E : Tree → Type 0) {out : Result Failure A × Machine}
    {a : A} {s : Machine}
    → out ≡ (ok a, s)
    → Ends Q E out
    → Q a s.tree
Ends-ok Q E e h = subst (Ends Q E) e h

pub Ends-err :
    {A : Type 0} (Q : A → Tree → Type 0) (E : Tree → Type 0) {out : Result Failure A × Machine}
    {x : Failure} {s : Machine}
    → out ≡ (err x, s)
    → Ends Q E out
    → E s.tree
Ends-err Q E e h = subst (Ends Q E) e h

-- one postcondition for both
pub Ends-both :
    {A : Type 0} (X : Tree → Type 0) (out : Result Failure A × Machine)
    → Ends (λ _. X) X out
    → X out.1.tree
Ends-both X (ok a, s) h = h
Ends-both X (err e, s) h = h

module _ {A : Type 0} {P : Tree → Type 0} {Q : A → Tree → Type 0} {E : Tree → Type 0} where
  pub Does-pure : (a : A) → ((t : Tree) → P t → Q a t) → Does P (pure a) Q E
  unfolding pure
  Does-pure a h = record { at = λ s p. h s.tree p }

  pub Does-lift :
      (r : Result Failure A)
      → ((t : Tree) → P t → (a : A) → r ≡ ok a → Q a t)
      → ((t : Tree) → P t → E t)
      → Does P (lift r) Q E
  unfolding lift
  Does-lift (ok a) h he = record { at = λ s p. h s.tree p a refl }
  Does-lift (err e) h he = record { at = λ s p. he s.tree p }

  pub Does-raise :
      (k : ApplyTransactionErrorKind) (message : Text)
      → ((t : Tree) → P t → E t)
      → Does P (raise k message) Q E
  unfolding lift
  Does-raise k message he = record { at = λ s p. he s.tree p }

  pub Does-gets :
      (f : Machine → A) → ((s : Machine) → P s.tree → Q (f s) s.tree) → Does P (gets f) Q E
  unfolding gets
  Does-gets f h = record { at = λ s p. h s p }

  pub Does-context : (c : Text) (m : Op A) → Does P m Q E → Does P (context c m) Q E
  unfolding context
  Does-context c m d = record { at = λ s p. through (m s) (d.at s p) }
    where
      through :
          (r : Result Failure A × Machine) → Ends Q E r → Ends Q E (map_err (prefixed c) r.0, r.1)
      through (ok a, s) h = h
      through (err e, s) h = h

  pub Does-with_kind :
      (k : ApplyTransactionErrorKind) (c : Text) (m : Op A)
      → Does P m Q E
      → Does P (with_kind k c m) Q E
  unfolding with_kind
  Does-with_kind k c m d = record { at = λ s p. through (m s) (d.at s p) }
    where
      through :
          (r : Result Failure A × Machine) → Ends Q E r → Ends Q E (map_err (kinded k c) r.0, r.1)
      through (ok a, s) h = h
      through (err e, s) h = h

  pub Does-weaken :
      {P' : Tree → Type 0} {Q' : A → Tree → Type 0} {E' : Tree → Type 0} (m : Op A)
      → Does P' m Q' E'
      → ((t : Tree) → P t → P' t)
      → ((a : A) (t : Tree) → Q' a t → Q a t)
      → ((t : Tree) → E' t → E t)
      → Does P m Q E
  Does-weaken {P'} {Q'} {E'} m d hp hq he = record {
    at = λ s p. through (m s) (d.at s (hp s.tree p));
  }
    where
      through : (r : Result Failure A × Machine) → Ends Q' E' r → Ends Q E r
      through (ok a, s) h = hq a s.tree h
      through (err e, s) h = he s.tree h

  -- a fact among the premises
  pub Does-given : (m : Op A) (X : Type 0) → (X → Does P m Q E) → Does (λ t. P t × X) m Q E
  Does-given m X h = record { at = λ s p. (h p.1).at s p.0 }

  pub Does-if :
      (b : Bool) (m n : Op A)
      → (b ≡ true → Does P m Q E)
      → (b ≡ false → Does P n Q E)
      → Does P (if b then m else n) Q E
  Does-if true m n hm hn = hm refl
  Does-if false m n hm hn = hn refl

module _ {A B : Type 0} {P : Tree → Type 0} {Q : A → Tree → Type 0} {R : B → Tree → Type 0}
    {E : Tree → Type 0} where
  pub Does-bind :
      (m : Op A) (f : A → Op B)
      → Does P m Q E
      → ((a : A) → Does (Q a) (f a) R E)
      → Does P (m >>= f) R E
  unfolding ◌>>=◌
  Does-bind m f dm df = record { at = λ s p. through (m s) (dm.at s p) }
    where
      through : (r : Result Failure A × Machine) → Ends Q E r → Ends R E (after r.0 f r.1)
      through (ok a, s) h = (df a).at s h
      through (err e, s) h = h

-- a `?` on a value that is known
pub Does-bind-lift :
    {A B : Type 0} {P : Tree → Type 0} {R : B → Tree → Type 0} {E : Tree → Type 0}
    (r : Result Failure A) (a : A) (f : A → Op B)
    → r ≡ ok a
    → Does P (f a) R E
    → Does P (lift r >>= f) R E
unfolding ◌>>=◌ lift
Does-bind-lift r a f e d = record { at = λ s p. rw e (d.at s p) }

-- the answer of an attempt
abbrev pub Answers :
    {A : Type 0} → (A → Tree → Type 0) → (Tree → Type 0) → Result Failure A → Tree → Type 0
Answers Q E (ok a) t = Q a t
Answers Q E (err e) t = E t

pub Does-attempt :
    {A : Type 0} {P : Tree → Type 0} {Q : A → Tree → Type 0} {E E' : Tree → Type 0} (m : Op A)
    → Does P m Q E
    → Does P (attempt m) (Answers Q E) E'
unfolding attempt
Does-attempt {A} {P} {Q} {E} {E'} m d = record { at = λ s p. through (m s) (d.at s p) }
  where
    through : (r : Result Failure A × Machine) → Ends Q E r → Ends (Answers Q E) E' (ok r.0, r.1)
    through (ok a, s) h = h
    through (err e, s) h = h

-- `match m { Err(e) => .., Ok(a) => .. }`
pub Does-match :
    {A B : Type 0} {P : Tree → Type 0} {Q : A → Tree → Type 0} {R : B → Tree → Type 0}
    {E F : Tree → Type 0} (m : Op A) (failed : Failure → Op B) (went_on : A → Op B)
    → Does P m Q E
    → ((e : Failure) → Does E (failed e) R F)
    → ((a : A) → Does (Q a) (went_on a) R F)
    → Does P (attempt m >>= λ r. on_result r failed went_on) R F
Does-match {A} {Q} {R} {E} {F} m failed went_on d de da = Does-bind _ _ (Does-attempt m d) arms
  where
    arms : (r : Result Failure A) → Does (Answers Q E r) (on_result r failed went_on) R F
    arms (ok a) = da a
    arms (err e) = de e

-- the arms of a `match` on a known value
pub Does-on_result :
    {A B : Type 0} {P : Tree → Type 0} {R : B → Tree → Type 0} {F : Tree → Type 0}
    (r : Result Failure A) (failed : Failure → Op B) (went_on : A → Op B)
    → ((e : Failure) → r ≡ err e → Does P (failed e) R F)
    → ((a : A) → r ≡ ok a → Does P (went_on a) R F)
    → Does P (on_result r failed went_on) R F
Does-on_result (ok a) failed went_on de da = da a refl
Does-on_result (err e) failed went_on de da = de e refl

module _ {P : Tree → Type 0} {Q : Unit → Tree → Type 0} {E : Tree → Type 0} where
  pub Does-raise_if :
      (b : Bool) (k : ApplyTransactionErrorKind) (message : Text)
      → (b ≡ false → (t : Tree) → P t → Q tt t)
      → ((t : Tree) → P t → E t)
      → Does P (raise_if b k message) Q E
  unfolding raise_if pure
  Does-raise_if true k message h he = Does-raise k message he
  Does-raise_if false k message h he = Does-pure tt (h refl)

  pub Does-put_node :
      (p : FilePath) (n : Node)
      → ((t : Tree) → P t → Q tt (write_node t p n))
      → Does P (put_node p n) Q E
  unfolding modify
  Does-put_node p n h = record { at = λ s q. h s.tree q }

  pub Does-modify :
      (f : Machine → Machine) → ((s : Machine) → P s.tree → Q tt (f s).tree) → Does P (modify f) Q E
  unfolding modify
  Does-modify f h = record { at = λ s q. h s q }

module _ (w : World) (q : IsQuiet w) {P : Tree → Type 0} {E : Tree → Type 0}
    (he : (t : Tree) → P t → E t) where
  pub Does-call : Does P (call w) (λ _. P) E
  unfolding call
  Does-call = record {
    at = λ s p. elim (Bool-cases (w.fails s.tick)) [
      | inl e ↦ rw e (he _ (rw (q s.tick s.tree) p))
      | inr e ↦ rw e (rw (q s.tick s.tree) p)
    ];
  }

  pub Does-check_fault : (point : ApplyFaultPoint) → Does P (check_fault w point) (λ _. P) E
  unfolding check_fault
  Does-check_fault point = record {
    at = λ s p. elim (Bool-cases (w.fault s.tick point)) [ inl e ↦ rw e (he _ p) | inr e ↦ rw e p ];
  }

  pub Does-at_first :
      (first : Bool) (point : ApplyFaultPoint) → Does P (at_first w first point) (λ _. P) E
  Does-at_first true point = Does-check_fault point
  Does-at_first false point = Does-pure tt (λ t h. h)
