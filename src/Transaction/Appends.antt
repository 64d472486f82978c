-- ===== src/Transaction/Appends.antt =====
-- A transition of the journal of crates/opticcode-tools/src/apply_transaction.rs leaves the workspace as
-- it is.
use optic_code.Prelude.{Bool, List, Option, refl, ◌≡◌}
use optic_code.Text.{Text}
use optic_code.Transaction.Journal.{append_event, transition, write_new_atomic}
use optic_code.Transaction.Logic.{
  Does, Does-bind, Does-call, Does-context, Does-gets, Does-modify, Does-raise_if, IsQuiet,
}
use optic_code.Transaction.Machine.{Machine, Tree, World}
use optic_code.Transaction.Model.{ApplyTransactionEvent, ApplyTransactionState, GitStateSnapshot}

module _ (w : World) (q : IsQuiet w) {P : Tree → Type 0} {E : Tree → Type 0}
    (hp : (t : Tree) → P t → E t) where
  pub Does-write_new_atomic :
      (there : Machine → Bool) (store : Machine → Machine)
      → ((s : Machine) → (store s).tree ≡ s.tree)
      → Does P (write_new_atomic w there store) (λ _. P) E
  unfolding write_new_atomic
  Does-write_new_atomic there store same = Does-bind _ _ (Does-gets {Q = λ _. P} _ (λ s h. h)) (λ b.
      Does-bind _ _ (Does-raise_if {Q = λ _. P} _ _ _ (λ e t h. h) hp) (λ _.
        Does-bind _ _ (Does-call w q hp) (λ _.
          Does-bind _ _ (Does-context _ _ (Does-call w q hp)) (λ _.
            Does-bind _ _ (Does-modify {Q = λ _. P} _ (λ s h. rw (same s) h))
              (λ _. Does-call w q hp)))))

  Does-append_event : (e : ApplyTransactionEvent) → Does P (append_event w e) (λ _. P) E
  unfolding append_event
  Does-append_event e =
      Does-bind _ _ (Does-context _ _ (Does-write_new_atomic _ _ (λ s. refl))) (λ _.
        Does-bind _ _ (Does-modify {Q = λ _. P} _ (λ s h. h)) (λ _.
          Does-bind _ _ (Does-raise_if {Q = λ _. P} _ _ _ (λ e t h. h) hp)
            (λ _. Does-modify _ (λ s h. h))))

  pub Does-transition :
      (next : ApplyTransactionState) (message : Text) (files errors : List Text)
      (git : Option GitStateSnapshot)
      → Does P (transition w next message files errors git) (λ _. P) E
  unfolding transition
  Does-transition next message files errors git =
      Does-bind _ _ (Does-gets {Q = λ _. P} _ (λ s h. h)) (λ current.
        Does-bind _ _ (Does-raise_if {Q = λ _. P} _ _ _ (λ e t h. h) hp) (λ _.
          Does-bind _ _ (Does-call w q hp) (λ _.
            Does-bind _ _ (Does-gets {Q = λ _. P} _ (λ s h. h))
              (λ event. Does-append_event event))))
