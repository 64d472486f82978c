-- ===== src/Approval/Drift.antt =====
-- What a grant of crates/opticcode-policy/src/approval.rs is good for: the state that it was issued
-- for and no other, within its lifetime.
use optic_code.Approval.{
  ApprovalGrant, ApprovalRecord, ApprovalStore, Codec, ConsumeCalls, check_record, claim_record,
  consume_at, consumed, json_name, read_record, settle, take_record, was_used,
}
use optic_code.Approval.Binding.{ApprovalBinding, compare_binding, normalized}
use optic_code.Prelude.{
  >>=-eq-ok, Bool, Option-cases, arith, false, inl, inr, ok, some, ℕ, ◌>>=◌, ◌↔◌, ◌≡◌, ◌≤◌,
}
use optic_code.Text.{Text}

-- The comparison accepts exactly the binding that was approved: no field of it is left out.
pub compare_binding_iff : (a b : ApprovalBinding) → (compare_binding a b ≡ ok tt) ↔ (a ≡ b)
unfolding compare_binding
compare_binding_iff a b = (λ h. ground arith, λ e. ground arith)

normalized-same : (b : ApprovalBinding) {c : ApprovalBinding} → normalized b ≡ ok c → c ≡ b
unfolding normalized
normalized-same b h = ground arith

module _ (codec : Codec) where
  check_record-binding :
      (id : Text) (observed : ApprovalBinding) (now : ℕ) (r : ApprovalRecord) {g : ApprovalGrant}
      → check_record codec id observed now r ≡ ok g
      → compare_binding r.binding observed ≡ ok tt
  unfolding check_record normalized
  check_record-binding id observed now r h = ground arith

  check_record-fresh :
      (id : Text) (observed : ApprovalBinding) (now : ℕ) (r : ApprovalRecord) {g : ApprovalGrant}
      → check_record codec id observed now r ≡ ok g
      → (now ≤ r.expires_unix_ms)
        × (g.state ≡ consumed)
        × (g.approval_id ≡ id)
        × (g.expires_unix_ms ≡ r.expires_unix_ms)
  unfolding check_record
  check_record-fresh id observed now r h = ground arith

  -- What stands behind a grant that was consumed.
  abbrev pub Backed :
      ApprovalStore → Text → ApprovalBinding → ℕ → ApprovalGrant → Text → ApprovalRecord → Type 0
  Backed store id observed now g content r =
      (store.active_dir (json_name id) ≡ some content)
      × (codec.parse_record content ≡ ok r)
      × (r.binding ≡ observed)
      × (now ≤ r.expires_unix_ms)
      × (g.expires_unix_ms ≡ r.expires_unix_ms)
      × (g.approval_id ≡ id)
      × (g.state ≡ consumed)
      × (was_used store id ≡ false)

  settled-check :
      (calls : ConsumeCalls) (id : Text) (observed : ApprovalBinding) (now : ℕ)
      (store : ApprovalStore) (content : Text) {g : ApprovalGrant}
      → (claim_record codec calls id observed now store content).0 ≡ ok g
      → (read_record codec calls.readable content >>= check_record codec id observed now) ≡ ok g
  unfolding claim_record take_record settle
  settled-check calls id observed now store content h = ground arith

  read_record-parse :
      (readable : Bool) (content : Text) {r : ApprovalRecord}
      → read_record codec readable content ≡ ok r
      → codec.parse_record content ≡ ok r
  unfolding read_record
  read_record-parse readable content h = ground arith

  -- A grant is only ever consumed for the binding that its record holds: the record was among the
  -- active ones and not used before, it has not expired, and the observed state is the approved one,
  -- whatever the system calls answer.
  pub consume_at-Backed :
      (calls : ConsumeCalls) (store : ApprovalStore) (id : Text) (observed : ApprovalBinding)
      (now : ℕ) {g : ApprovalGrant}
      → (consume_at codec calls store id observed now).0 ≡ ok g
      → (content : Text) × (r : ApprovalRecord) × Backed store id observed now g content r
  unfolding consume_at
  consume_at-Backed calls store id observed now {g} h =
      elim (Option-cases (store.active_dir (json_name id))) [
        | inr e ↦ ground arith
        | inl (content, e) ↦
            let claimed_ok : (claim_record codec calls id observed now store content).0 ≡ ok g =
              ground arith in
            let unused : was_used store id ≡ false = ground arith in
            let (r, read, checked) =
              >>=-eq-ok (read_record codec calls.readable content)
                (check_record codec id observed now)
                (settled-check calls id observed now store content claimed_ok) in
            let fresh = check_record-fresh id observed now r checked in
            (
              content,
              r,
              (
                e,
                read_record-parse calls.readable content read,
                (compare_binding_iff r.binding observed).0
                    (check_record-binding id observed now r checked),
                fresh.0,
                fresh.3,
                fresh.2,
                fresh.1,
                unused,
              ),
            )
      ]
