-- ===== src/Transaction/Accepted.antt =====
-- The journal of a transaction in crates/opticcode-tools/src/apply_transaction.rs and the event loop of
-- the inspection: what the one writes the other accepts.
use mathlib.Core.Path.{subst}
use mathlib.Core.List.{append_assoc}
use optic_code.Prelude.{
  !=-refl, Bool, Eq, List, Option, Result, String, [], ap, arith, false, if◌then◌else◌, leb, length,
  length-append, map, nat_eq, none, not, ok, refl, some, suc, sym, true, ℕ, ◌!=◌, ◌++◌, ◌+◌, ◌<◌,
  ◌∙◌, ◌∷◌, ◌≡◌, ◌≤◌,
}
use optic_code.Text.{Text, bytes, text_eq, text_lt}
use optic_code.Transaction.History.{
  EventFile, check_event, check_events, event_name, last_state, next_number,
  validate_event_semantics, when,
}
use optic_code.Transaction.Journal.{
  append_event, event_exists, transition, u32_max, valid_transition, write_new_atomic,
}
use optic_code.Transaction.Machine.{Machine, TransactionJournal, World}
use optic_code.Transaction.Model.{
  ApplyTransactionEvent, ApplyTransactionManifest, ApplyTransactionState, GitStateSnapshot,
  apply_transaction_schema_version, as_str,
}
use optic_code.Transaction.Runs.{
  Logged, Runs, Runs-bind, Runs-call, Runs-context, Runs-gets, Runs-given, Runs-modify,
  Runs-raise_if, Stops,
}

-- an event that may come next, after a state and under a number
pub record IsNext (id : Text) (manifest : ApplyTransactionManifest)
    (current : Option ApplyTransactionState) (n : ℕ) (e : ApplyTransactionEvent) : Type 0 where
  pub follows : valid_transition current e.event_state ≡ true
  pub numbered : e.sequence ≡ n
  pub owned : e.transaction_id ≡ id
  pub versioned : e.schema_version ≡ apply_transaction_schema_version
  pub meant : validate_event_semantics e manifest ≡ []

abbrev pub Chain :
    Text
    → ApplyTransactionManifest
    → Option ApplyTransactionState
    → ℕ
    → List ApplyTransactionEvent
    → Type 0
Chain id manifest current n [] = Unit
Chain id manifest current n (e ∷ es) =
    IsNext id manifest current n e
    × (n < u32_max)
    × Chain id manifest (some e.event_state) (n + 1) es

-- the events form a chain, and the journal stands at its end
pub record IsJournalled (id : Text) (manifest : ApplyTransactionManifest) (s : Machine)
    : Type 0 where
  pub chained : Chain id manifest none 0 s.events
  pub current : last_state none s.events ≡ s.journal.current_state
  pub counted : s.journal.next_sequence ≡ length s.events
  pub owner : s.journal.transaction_id ≡ id

Chain-append :
    (id : Text) (manifest : ApplyTransactionManifest) (current : Option ApplyTransactionState)
    (n : ℕ) (es : List ApplyTransactionEvent) (e : ApplyTransactionEvent)
    → Chain id manifest current n es
    → IsNext id manifest (last_state current es) (n + length es) e
    → n + length es < u32_max
    → Chain id manifest current n (es ++ e ∷ [])
Chain-append id manifest current n [] e h next below =
    let z : n + 0 ≡ n = omega arith in
    (subst (λ k. IsNext id manifest current k e) z next, subst (λ k. k < u32_max) z below, tt)
Chain-append id manifest current n (x ∷ es) e h next below =
    let z : n + suc (length es) ≡ n + 1 + length es = omega arith in
    (
      h.0,
      h.1,
      Chain-append id manifest (some x.event_state) (n + 1) es e h.2
          (subst (λ k. IsNext id manifest (last_state (some x.event_state) es) k e) z next)
          (subst (λ k. k < u32_max) z below),
    )

last_state-append :
    (current : Option ApplyTransactionState) (es : List ApplyTransactionEvent)
    (e : ApplyTransactionEvent)
    → last_state current (es ++ e ∷ []) ≡ some e.event_state
last_state-append current [] e = refl
last_state-append current (x ∷ es) e = last_state-append (some x.event_state) es e

text_lt_asymm : (s t : Text) → text_lt s t ≡ true → text_lt t s ≡ false
unfolding text_lt
text_lt_asymm s [] h = cc
text_lt_asymm [] (d ∷ t) h = refl
text_lt_asymm (c ∷ s) (d ∷ t) h = ground (arith, text_lt_asymm s t)

when-!= : {A : Type 0} ⦃eq : Eq A⦄ (a b : A) (message : String) → a ≡ b → when (a != b) message ≡ []
when-!= a b message h = rw h (rw (!=-refl b) refl)

-- the name of an event's file behind its number
abbrev tail_of : ApplyTransactionEvent → Text
tail_of e = bytes "-" ++ (bytes (as_str e.event_state) ++ bytes ".json")

event_name-parts :
    (w : World) (id : Text) (e : ApplyTransactionEvent)
    → event_name w id e ≡ w.show8 e.sequence ++ tail_of e
unfolding event_name
event_name-parts w id e =
    append_assoc (w.show8 e.sequence ++ bytes "-") (bytes (as_str e.event_state)) (bytes ".json")
    ∙ append_assoc (w.show8 e.sequence) (bytes "-") (bytes (as_str e.event_state) ++ bytes ".json")

-- `paths.sort()`, by name in one directory
unfoldable pub insert_event_file : EventFile → List EventFile → List EventFile
insert_event_file f [] = f ∷ []
insert_event_file f (g ∷ rest) =
    if text_lt g.name f.name then g ∷ insert_event_file f rest else f ∷ g ∷ rest

unfoldable pub sort_event_files : List EventFile → List EventFile
unfolding insert_event_file
sort_event_files [] = []
sort_event_files (f ∷ rest) = insert_event_file f (sort_event_files rest)

module _ (w : World) {Json : Type 0} (to_json : ApplyTransactionEvent → Json)
    (from_json : Json → Result Text ApplyTransactionEvent) where
  -- the file that the journal published for an event
  unfoldable pub event_file : Text → ApplyTransactionEvent → EventFile
  event_file id e = record {
    name = event_name w id e;
    is_regular = true;
    event = from_json (to_json e);
  }

module _ (w : World) {Json : Type 0} (to_json : ApplyTransactionEvent → Json)
    (from_json : Json → Result Text ApplyTransactionEvent)
    (reads : (e : ApplyTransactionEvent) → from_json (to_json e) ≡ ok e)
    (width : (m n : ℕ) (s t : Text)
      → m < n
      → n < 100000000
      → text_lt (w.show8 m ++ s) (w.show8 n ++ t) ≡ true)
    (id : Text) (manifest : ApplyTransactionManifest) where
  check_event-IsNext :
      (current : Option ApplyTransactionState) (n : ℕ) (e : ApplyTransactionEvent)
      → IsNext id manifest current n e
      → check_event w id (some manifest) current n (event_name w id e) e ≡ []
  unfolding check_event
  check_event-IsNext current n e next =
      let versioned =
        when-!= e.schema_version _ "event has unsupported schema version" next.versioned in
      let owned = when-!= e.transaction_id _ "event has a mismatched transaction id" next.owned in
      let numbered = when-!= e.sequence _ "event sequence mismatch" next.numbered in
      let follows : when (not (valid_transition current e.event_state))
            "invalid persisted transition"
          ≡ [] =
        rw next.follows refl in
      let named =
        when-!= (event_name w id e) _ "event filename does not match its sequence/state" refl in
      rw versioned (rw owned (rw numbered (rw follows (rw named next.meant))))

  check_events-Chain :
      (current : Option ApplyTransactionState) (n : ℕ) (es : List ApplyTransactionEvent)
      → Chain id manifest current n es
      → check_events w id (some manifest) current n (map (event_file w to_json from_json id) es)
        ≡ (es, [])
  unfolding check_events event_file
  check_events-Chain current n [] h = refl
  check_events-Chain current n (e ∷ es) h =
      let z : next_number e.sequence ≡ n + 1 = let q = h.0.numbered in let b = h.1 in omega arith in
      rw (reads e) (
        rw z (
          rw (check_events-Chain (some e.event_state) (n + 1) es h.2)
            (rw (check_event-IsNext current n e h.0) refl)))

  sort_event_files-Chain :
      (current : Option ApplyTransactionState) (n : ℕ) (es : List ApplyTransactionEvent)
      → Chain id manifest current n es
      → n + length es ≤ 100000000
      → sort_event_files (map (event_file w to_json from_json id) es)
        ≡ map (event_file w to_json from_json id) es
  unfolding sort_event_files event_file
  sort_event_files-Chain current n [] h few = refl
  sort_event_files-Chain current n (e ∷ []) h few = refl
  sort_event_files-Chain current n (e ∷ f ∷ es) h few =
      let ih = sort_event_files-Chain (some e.event_state) (n + 1) (f ∷ es) h.2 (omega arith) in
      let a = h.0.numbered in
      let b = h.2.0.numbered in
      let before : text_lt (event_name w id e) (event_name w id f) ≡ true =
        rw (event_name-parts w id e, event_name-parts w id f)
          (width e.sequence f.sequence (tail_of e) (tail_of f) (omega arith) (omega arith)) in
      rw ih (rw (text_lt_asymm (event_name w id e) (event_name w id f) before) refl)

abbrev Anything : Machine → Type 0
Anything s = Unit

-- one more event, which the journal counts
abbrev Counts :
    ApplyTransactionManifest → List ApplyTransactionEvent → TransactionJournal → Machine → Type 0
Counts manifest es j s =
    (e : ApplyTransactionEvent) × IsNext j.transaction_id manifest j.current_state j.next_sequence e
    × (j.next_sequence < u32_max)
    × (s.events ≡ es ++ e ∷ [])
    × (s.journal
        ≡ record j { current_state = some e.event_state; next_sequence = j.next_sequence + 1 })

module _ (w : World) (manifest : ApplyTransactionManifest) (es : List ApplyTransactionEvent)
    (j : TransactionJournal) where
  ignored : (s : Machine) → Logged es j s → Anything s
  ignored s h = tt

  Runs-append_event :
      (e : ApplyTransactionEvent)
      → IsNext j.transaction_id manifest j.current_state j.next_sequence e
      → Runs (Logged es j) (append_event w e) (λ _. Counts manifest es j) Anything
  unfolding append_event write_new_atomic
  Runs-append_event e next = Runs-bind _ _ (Runs-context _ _ written) (λ _.
      Runs-bind _ _
        (Runs-modify
          {Q = λ _. Logged (es ++ e ∷ []) (record j { current_state = some e.event_state })} _
          (λ s h. (
            h.0,
            ap (λ (x : TransactionJournal). record x { current_state = some e.event_state }) h.1,
          )))
        (λ _.
          Runs-bind _ _
            (Runs-raise_if
              {Q = λ _ s.
                Logged (es ++ e ∷ []) (record j { current_state = some e.event_state }) s
                × (leb u32_max e.sequence ≡ false)}
              _ _ _ (λ d s h. (h, d)) (λ _ s h. tt))
            (λ _. Runs-given _ _ (λ d. Runs-modify _ (λ s h. (
              e,
              next,
              below d,
              h.0,
              ap (λ (x : TransactionJournal). record x { next_sequence = e.sequence + 1 }) h.1
                  ∙ ap
                      (λ (n : ℕ). record j {
                        current_state = some e.event_state;
                        next_sequence = n + 1;
                      })
                      next.numbered,
            ))))))
    where
      below : leb u32_max e.sequence ≡ false → j.next_sequence < u32_max
      below d = let n = next.numbered in ground arith

      written :
          Runs
            (Logged es j)
            (write_new_atomic w
              (λ s. event_exists s.events e.sequence e.event_state)
              (λ s. record s { events = s.events ++ e ∷ [] }))
            (λ _. Logged (es ++ e ∷ []) j)
            Anything
      written = Runs-bind _ _ (Runs-gets {Q = λ _. Logged es j} _ (λ s h. h)) (λ b.
          Runs-bind _ _ (Runs-raise_if {Q = λ _. Logged es j} _ _ _ (λ d s h. h) (λ _. ignored))
            (λ _. Runs-bind _ _ (Runs-call w es j ignored) (λ _.
              Runs-bind _ _ (Runs-context _ _ (Runs-call w es j ignored)) (λ _.
                Runs-bind _ _
                  (Runs-modify {Q = λ _. Logged (es ++ e ∷ []) j} _
                    (λ s h. (ap (λ x. x ++ e ∷ []) h.0, h.1)))
                  (λ _. Runs-call w (es ++ e ∷ []) j (λ s h. tt))))))

  Runs-transition :
      (next : ApplyTransactionState) (message : Text) (files errors : List Text)
      (git : Option GitStateSnapshot)
      → ((e : ApplyTransactionEvent)
          → e.event_state ≡ next
          → e.files ≡ files
          → e.errors ≡ errors
          → e.git_snapshot ≡ git
          → validate_event_semantics e manifest ≡ [])
      → Runs
          (Logged es j)
          (transition w next message files errors git)
          (λ _. Counts manifest es j)
          Anything
  unfolding transition
  Runs-transition next message files errors git meant =
      Runs-bind _ _
        (Runs-gets {Q = λ c s. Logged es j s × (c ≡ j.current_state)} _
          (λ s h. (h, ap (λ (x : TransactionJournal). x.current_state) h.1)))
        (λ c. Runs-given _ _ (λ ec.
          Runs-bind _ _
            (Runs-raise_if
              {Q = λ _ s. Logged es j s × (valid_transition j.current_state next ≡ true)} _ _ _
              (λ d s h. (h, subst (λ x. valid_transition x next ≡ true) ec (unnegated _ d)))
              (λ _. ignored))
            (λ _. Runs-given _ _ (λ follows. Runs-bind _ _ (Runs-call w es j ignored) (λ _.
              Runs-bind _ _
                (Runs-gets
                  {Q = λ e s.
                    Logged es j s
                    × IsNext j.transaction_id manifest j.current_state j.next_sequence e}
                  _
                  (λ s h. (
                    h,
                    record {
                      follows = follows;
                      numbered = ap (λ (x : TransactionJournal). x.next_sequence) h.1;
                      owned = ap (λ (x : TransactionJournal). x.transaction_id) h.1;
                      versioned = refl;
                      meant = meant _ refl refl refl refl;
                    },
                  )))
                (λ e. Runs-given _ _ (λ n. Runs-append_event e n)))))))
    where
      unnegated : (b : Bool) → not b ≡ false → b ≡ true
      unnegated true e = refl
      unnegated false e = cc

IsJournalled-Counts :
    (id : Text) (manifest : ApplyTransactionManifest) (s s' : Machine)
    → IsJournalled id manifest s
    → Counts manifest s.events s.journal s'
    → IsJournalled id manifest s'
IsJournalled-Counts id manifest s s' known (e, next, below, events, journal) = record {
  chained = rw events (
      Chain-append id manifest none 0 s.events e known.chained
        (subst (λ k. IsNext id manifest (last_state none s.events) k e) from_zero
          (subst (λ c. IsNext id manifest c s.journal.next_sequence e) (sym known.current)
            (subst (λ x. IsNext x manifest s.journal.current_state s.journal.next_sequence e)
              known.owner next)))
        (subst (λ k. k < u32_max) from_zero below));
  current =
      ap (last_state none) events
      ∙ last_state-append none s.events e
      ∙ ap (λ (x : TransactionJournal). x.current_state) (sym journal);
  counted =
      ap (λ (x : TransactionJournal). x.next_sequence) journal
      ∙ ap (λ n. n + 1) known.counted
      ∙ sym (ap length events ∙ length-append s.events (e ∷ []));
  owner = ap (λ (x : TransactionJournal). x.transaction_id) journal ∙ known.owner;
}
  where
    from_zero : s.journal.next_sequence ≡ 0 + length s.events
    from_zero = let e = known.counted in omega arith

-- The conditions: serde_json reads back what it wrote; `{:08}` has a fixed width below 100,000,000, so
-- that the order of the names is the one of the numbers; and what the event says of files, errors and
-- the Git state is what the manifest allows in its state. Then a transition that returns keeps the
-- journal of a transaction at the end of a history that the event loop of the inspection accepts under
-- this manifest: the files of the events, sorted by name, are read as all events in order, and no error
-- is reported.
pub transition-IsJournalled :
    (w : World) {Json : Type 0} (to_json : ApplyTransactionEvent → Json)
    (from_json : Json → Result Text ApplyTransactionEvent)
    → ((e : ApplyTransactionEvent) → from_json (to_json e) ≡ ok e)
    → ((m n : ℕ) (s t : Text)
        → m < n
        → n < 100000000
        → text_lt (w.show8 m ++ s) (w.show8 n ++ t) ≡ true)
    → (id : Text) (manifest : ApplyTransactionManifest) (next : ApplyTransactionState)
      (message : Text) (files errors : List Text) (git : Option GitStateSnapshot)
    → ((e : ApplyTransactionEvent)
        → e.event_state ≡ next
        → e.files ≡ files
        → e.errors ≡ errors
        → e.git_snapshot ≡ git
        → validate_event_semantics e manifest ≡ [])
    → (s s' : Machine) → IsJournalled id manifest s
    → transition w next message files errors git s ≡ (ok tt, s')
    → s'.journal.next_sequence ≤ 100000000
    → IsJournalled id manifest s'
      × (check_events w id
            (some manifest)
            none
            0
            (sort_event_files (map (event_file w to_json from_json id) s'.events))
          ≡ (s'.events, []))
transition-IsJournalled w to_json from_json reads width id manifest next message files errors git
      meant s s' known ran few =
    let after = IsJournalled-Counts id manifest s s' known (
      subst (Stops (λ _. Counts manifest s.events s.journal) Anything) ran (
        (Runs-transition w manifest s.events s.journal next message files errors git meant).at s
          (refl, refl))) in
    let counted = after.counted in
    (
      after,
      ap (check_events w id (some manifest) none 0) (
            sort_event_files-Chain w to_json from_json reads width id manifest none 0 s'.events
              after.chained (omega arith))
          ∙ check_events-Chain w to_json from_json reads width id manifest none 0 s'.events
              after.chained,
    )
