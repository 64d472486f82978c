-- ===== src/Transaction/Listed.antt =====
-- What `list_apply_transactions` of crates/opticcode-tools/src/apply_transaction.rs answers.
use mathlib.Core.Path.{subst}
use optic_code.FilePath.{FilePath}
use optic_code.Host.{Metadata}
use optic_code.Prelude.{
  >>=-eq-ok, ok_inj, Among, Bool, Bool-cases, List, Result, [], ap, arith, err, false,
  if◌then◌else◌, inl, inr, map_ok, ok, refl, sym, true, ◌↔◌, ◌∙◌, ◌∷◌, ◌≡◌,
}
use optic_code.Text.{Text, text_lt}
use optic_code.Transaction.Inspect.{ApplyTransactionInspection}
use optic_code.Transaction.Listing.{
  RunEntry, RunsView, insert_inspection, inspect_run, inspect_runs, is_listed,
  list_apply_transactions, sort_inspections,
}
use optic_code.Transaction.Machine.{World}
use optic_code.Transaction.Model.{Failure}

-- no identifier comes before that of its predecessor
abbrev pub Precedes : ApplyTransactionInspection → List ApplyTransactionInspection → Type 0
Precedes x [] = Unit
Precedes x (y ∷ rest) = text_lt y.transaction_id x.transaction_id ≡ false

abbrev pub IsSorted : List ApplyTransactionInspection → Type 0
IsSorted [] = Unit
IsSorted (x ∷ rest) = Precedes x rest × IsSorted rest

text_lt_asymm : (s t : Text) → text_lt s t ≡ true → text_lt t s ≡ false
unfolding text_lt
text_lt_asymm s [] h = cc
text_lt_asymm [] (d ∷ t) h = refl
text_lt_asymm (c ∷ s) (d ∷ t) h =
    let ih = text_lt_asymm s t in
    elim (Bool-cases (text_lt s t)) [ inl e ↦ let k = ih e in ground arith | inr e ↦ ground arith ]

insert_inspection-Precedes :
    (x y : ApplyTransactionInspection) (l : List ApplyTransactionInspection)
    → Precedes y l
    → text_lt x.transaction_id y.transaction_id ≡ false
    → Precedes y (insert_inspection x l)
unfolding insert_inspection
insert_inspection-Precedes x y [] h e = e
insert_inspection-Precedes x y (z ∷ rest) h e =
    elim (Bool-cases (text_lt z.transaction_id x.transaction_id)) [
      | inl d ↦ rw d h
      | inr d ↦ rw d e
    ]

insert_inspection-IsSorted :
    (x : ApplyTransactionInspection) (l : List ApplyTransactionInspection)
    → IsSorted l
    → IsSorted (insert_inspection x l)
unfolding insert_inspection
insert_inspection-IsSorted x [] h = (tt, tt)
insert_inspection-IsSorted x (y ∷ rest) h =
    elim (Bool-cases (text_lt y.transaction_id x.transaction_id)) [
      | inl e ↦ rw e (
        insert_inspection-Precedes x y rest h.0 (text_lt_asymm _ _ e),
        insert_inspection-IsSorted x rest h.1,
      )
      | inr e ↦ rw e (e, h)
    ]

sort_inspections-IsSorted : (l : List ApplyTransactionInspection) → IsSorted (sort_inspections l)
unfolding sort_inspections
sort_inspections-IsSorted [] = tt
sort_inspections-IsSorted (x ∷ rest) =
    insert_inspection-IsSorted x (sort_inspections rest) (sort_inspections-IsSorted rest)

insert_inspection_iff :
    (x i : ApplyTransactionInspection) (l : List ApplyTransactionInspection)
    → Among i (insert_inspection x l) ↔ Among i (x ∷ l)
unfolding insert_inspection
insert_inspection_iff x i [] = (λ h. h, λ h. h)
insert_inspection_iff x i (y ∷ rest) =
    elim (Bool-cases (text_lt y.transaction_id x.transaction_id)) [
      | inl e ↦
          let ih = insert_inspection_iff x i rest in
          rw e (
            λ h. elim h [
              | inl p ↦ inr (inl p)
              | inr a ↦ elim (ih.0 a) [ inl p ↦ inl p | inr b ↦ inr (inr b) ]
            ],
            λ h. elim h [
              | inl p ↦ inr (ih.1 (inl p))
              | inr a ↦ elim a [ inl p ↦ inl p | inr b ↦ inr (ih.1 (inr b)) ]
            ],
          )
      | inr e ↦ rw e (λ h. h, λ h. h)
    ]

sort_inspections_iff :
    (i : ApplyTransactionInspection) (l : List ApplyTransactionInspection)
    → Among i (sort_inspections l) ↔ Among i l
unfolding sort_inspections
sort_inspections_iff i [] = (λ h. h, λ h. h)
sort_inspections_iff i (x ∷ rest) =
    let k = insert_inspection_iff x i (sort_inspections rest) in
    let ih = sort_inspections_iff i rest in
    (
      λ h. elim (k.0 h) [ inl p ↦ inl p | inr a ↦ inr (ih.0 a) ],
      λ h. k.1 (elim h [ inl p ↦ inl p | inr a ↦ inr (ih.1 a) ]),
    )

module _ (w : World) (workspace : FilePath) where
  -- an inspection of one of the entries that are directories or links
  pub record IsListed (entries : List (Result Failure RunEntry)) (i : ApplyTransactionInspection)
      : Type 0 where
    pub entry : RunEntry
    pub metadata : Metadata
    pub among : Among (ok entry) entries
    pub answered : entry.metadata ≡ ok metadata
    pub kept : is_listed metadata ≡ true
    pub inspected : i ≡ inspect_run w workspace entry

  later :
      (x : Result Failure RunEntry) (rest : List (Result Failure RunEntry))
      (i : ApplyTransactionInspection)
      → IsListed rest i
      → IsListed (x ∷ rest) i
  later x rest i h = record {
    entry = h.entry;
    metadata = h.metadata;
    among = inr h.among;
    answered = h.answered;
    kept = h.kept;
    inspected = h.inspected;
  }

  chosen :
      (x : ApplyTransactionInspection) (b : Bool)
      (o : Result Failure (List ApplyTransactionInspection)) {l : List ApplyTransactionInspection}
      → (if b then map_ok (λ others. x ∷ others) o else o) ≡ ok l
      → (others : List ApplyTransactionInspection) × (o ≡ ok others)
        × ((if b then x ∷ others else others) ≡ l)
  chosen x true (ok others) h = (others, refl, cc)
  chosen x true (err e) h = cc
  chosen x false (ok others) h = (others, refl, cc)
  chosen x false (err e) h = cc

  inspect_runs-IsListed :
      (entries : List (Result Failure RunEntry)) {l : List ApplyTransactionInspection}
      → inspect_runs w workspace entries ≡ ok l
      → (i : ApplyTransactionInspection) → Among i l ↔ IsListed entries i
  unfolding inspect_runs
  inspect_runs-IsListed [] {l} ran i =
      let e : [] ≡ l = cc in (λ h. elim (subst (Among i) (sym e) h) [ ], λ h. elim h.among [ ])
  inspect_runs-IsListed (err e ∷ rest) ran i = cc
  inspect_runs-IsListed (ok entry ∷ rest) {l} ran i =
      let (m, answered, picked) = >>=-eq-ok entry.metadata _ ran in
      let (others, found, parts) = chosen (inspect_run w workspace entry) (is_listed m) _ picked in
      let ih = inspect_runs-IsListed rest found i in
      elim (Bool-cases (is_listed m)) [
        | inl e ↦
            let same : inspect_run w workspace entry ∷ others ≡ l =
              subst (λ b. (if b then inspect_run w workspace entry ∷ others else others) ≡ l) e
                parts in
            (
              λ h. elim (subst (Among i) (sym same) h) [
                | inl p ↦ record {
                  entry = entry;
                  metadata = m;
                  among = inl refl;
                  answered = answered;
                  kept = e;
                  inspected = p;
                }
                | inr a ↦ later (ok entry) rest i (ih.0 a)
              ],
              λ h. subst (Among i) same (elim h.among [
                | inl p ↦ inl (h.inspected ∙ ap (inspect_run w workspace) (ok_inj p))
                | inr a ↦ inr (ih.1 (earlier h a))
              ]),
            )
        | inr e ↦
            let same : others ≡ l =
              subst (λ b. (if b then inspect_run w workspace entry ∷ others else others) ≡ l) e
                parts in
            (
              λ h. later (ok entry) rest i (ih.0 (subst (Among i) (sym same) h)),
              λ h. subst (Among i) same (elim h.among [
                | inl p ↦ elim (unlisted h (ok_inj p) answered e) [ ]
                | inr a ↦ ih.1 (earlier h a)
              ]),
            )
      ]
    where
      unlisted :
          (h : IsListed (ok entry ∷ rest) i)
          → h.entry ≡ entry
          → {m : Metadata} → entry.metadata ≡ ok m
          → is_listed m ≡ false
          → ⊥
      unlisted h p {m} a e =
          let q : ok m ≡ ok h.metadata =
            sym a ∙ sym (ap (λ (x : RunEntry). x.metadata) p) ∙ h.answered in
          let k = h.kept in let r = ap is_listed (ok_inj q) in cc

      earlier : (h : IsListed (ok entry ∷ rest) i) → Among (ok h.entry) rest → IsListed rest i
      earlier h a = record {
        entry = h.entry;
        metadata = h.metadata;
        among = a;
        answered = h.answered;
        kept = h.kept;
        inspected = h.inspected;
      }

-- The listing of a workspace with a directory of runs is sorted by identifier. It has an inspection
-- exactly if that is the inspection of an entry of this directory that is a directory or a link.
pub list_apply_transactions-IsSorted :
    (w : World) (view : RunsView) (workspace : FilePath) (entries : List (Result Failure RunEntry))
    (l : List ApplyTransactionInspection)
    → view.workspace ≡ ok workspace
    → view.runs_is_dir ≡ true
    → view.entries ≡ ok entries
    → list_apply_transactions w view ≡ ok l
    → IsSorted l × ((i : ApplyTransactionInspection) → Among i l ↔ IsListed w workspace entries i)
unfolding list_apply_transactions
list_apply_transactions-IsSorted w view workspace entries l located present read ran =
    let first = rw located at ran in
    let second = rw present at first in
    let third = rw read at second in
    let (found, walked, answer) =
      >>=-eq-ok (inspect_runs w workspace entries) (λ l. ok (sort_inspections l)) third in
    let same : sort_inspections found ≡ l = ok_inj answer in
    (
      subst IsSorted same (sort_inspections-IsSorted found),
      λ i.
          let k = sort_inspections_iff i found in
          let r = inspect_runs-IsListed w workspace entries walked i in
          (λ h. r.0 (k.0 (subst (Among i) (sym same) h)), λ h. subst (Among i) same (k.1 (r.1 h))),
    )
