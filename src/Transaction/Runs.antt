-- ===== src/Transaction/Runs.antt =====
-- Triples over the whole machine, for the journal of crates/opticcode-tools/src/apply_transaction.rs, in
-- any world.
use optic_code.Prelude.{
  Bool, Bool-cases, List, Result, err, false, inl, inr, map_err, ok, refl, true, ◌≡◌,
}
use optic_code.Text.{Text}
use optic_code.Transaction.Machine.{
  Machine, Op, TransactionJournal, World, after, call, context, gets, lift, modify, prefixed, pure,
  raise_if, ◌>>=◌,
}
use optic_code.Transaction.Model.{ApplyTransactionErrorKind, ApplyTransactionEvent, Failure}

abbrev pub Stops :
    {A : Type 0} → (A → Machine → Type 0) → (Machine → Type 0) → Result Failure A × Machine → Type 0
Stops Q E (ok a, s) = Q a s
Stops Q E (err _, s) = E s

pub record Runs {A : Type 0} (P : Machine → Type 0) (m : Op A) (Q : A → Machine → Type 0)
    (E : Machine → Type 0) : Type 0 where
  pub at : (s : Machine) → P s → Stops Q E (m s)

module _ {A : Type 0} {P : Machine → Type 0} {Q : A → Machine → Type 0} {E : Machine → Type 0} where
  pub Runs-gets : (f : Machine → A) → ((s : Machine) → P s → Q (f s) s) → Runs P (gets f) Q E
  unfolding gets
  Runs-gets f h = record { at = λ s p. h s p }

  pub Runs-context : (c : Text) (m : Op A) → Runs P m Q E → Runs P (context c m) Q E
  unfolding context
  Runs-context c m d = record { at = λ s p. through (m s) (d.at s p) }
    where
      through :
          (r : Result Failure A × Machine) → Stops Q E r → Stops Q E (map_err (prefixed c) r.0, r.1)
      through (ok a, s) h = h
      through (err e, s) h = h

  pub Runs-given : (m : Op A) (X : Type 0) → (X → Runs P m Q E) → Runs (λ s. P s × X) m Q E
  Runs-given m X h = record { at = λ s p. (h p.1).at s p.0 }

module _ {A B : Type 0} {P : Machine → Type 0} {Q : A → Machine → Type 0} {R : B → Machine → Type 0}
    {E : Machine → Type 0} where
  pub Runs-bind :
      (m : Op A) (f : A → Op B)
      → Runs P m Q E
      → ((a : A) → Runs (Q a) (f a) R E)
      → Runs P (m >>= f) R E
  unfolding ◌>>=◌
  Runs-bind m f dm df = record { at = λ s p. through (m s) (dm.at s p) }
    where
      through : (r : Result Failure A × Machine) → Stops Q E r → Stops R E (after r.0 f r.1)
      through (ok a, s) h = (df a).at s h
      through (err e, s) h = h

module _ {P : Machine → Type 0} {Q : Unit → Machine → Type 0} {E : Machine → Type 0} where
  pub Runs-raise_if :
      (b : Bool) (k : ApplyTransactionErrorKind) (message : Text)
      → (b ≡ false → (s : Machine) → P s → Q tt s)
      → (b ≡ true → (s : Machine) → P s → E s)
      → Runs P (raise_if b k message) Q E
  unfolding raise_if pure lift
  Runs-raise_if true k message h he = record { at = λ s p. he refl s p }
  Runs-raise_if false k message h he = record { at = λ s p. h refl s p }

  pub Runs-modify :
      (f : Machine → Machine) → ((s : Machine) → P s → Q tt (f s)) → Runs P (modify f) Q E
  unfolding modify
  Runs-modify f h = record { at = λ s p. h s p }

-- the events and the journal of a machine
abbrev pub Logged : List ApplyTransactionEvent → TransactionJournal → Machine → Type 0
Logged es j s = (s.events ≡ es) × (s.journal ≡ j)

module _ (w : World) (es : List ApplyTransactionEvent) (j : TransactionJournal)
    {E : Machine → Type 0} (he : (s : Machine) → Logged es j s → E s) where
  pub Runs-call : Runs (Logged es j) (call w) (λ _. Logged es j) E
  unfolding call
  Runs-call = record {
    at = λ s p. elim (Bool-cases (w.fails s.tick)) [ inl e ↦ rw e (he _ p) | inr e ↦ rw e p ];
  }
