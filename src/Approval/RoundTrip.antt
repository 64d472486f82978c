-- ===== src/Approval/RoundTrip.antt =====
-- Issuing a grant of crates/opticcode-policy/src/approval.rs and presenting it at once.
use optic_code.Approval.{
  ApprovalGrant, ApprovalRecord, ApprovalStore, Codec, ConsumeCalls, NativeConfirmation,
  check_record, claim_created, claim_record, consume_at, consumed, grant_of, hash_json, issue_at,
  issue_checked, new_record, read_record, settle, take_record, taken, validate_storage_id, was_used,
  write_file_at,
}
use optic_code.Approval.Binding.{ApprovalBinding, normalized}
use optic_code.Approval.Drift.{compare_binding_iff}
use optic_code.Prelude.{
  Result-cases, ap, arith, false, inl, inr, length, ok, refl, true, usize_max, ℕ, ◌++◌, ◌∙◌, ◌≡◌,
  ◌≤◌,
}
use optic_code.Text.{Text, bytes}

-- What the store relies on: a record reads back as it was written, and a digest is 64 digits.
pub record IsCodec (codec : Codec) : Type 0 where
  pub reads_back :
      (r : ApprovalRecord) (json : Text)
      → codec.record_json r ≡ ok json
      → codec.parse_record (json ++ bytes "\n") ≡ ok r
  pub digest_length : (t : Text) → length (codec.hash t) ≡ 64

-- Every system call answers well.
abbrev pub quiet_calls : ConsumeCalls
quiet_calls = record {
  claim = claim_created;
  synced = true;
  take = taken;
  readable = true;
  published = true;
}

module _ (codec : Codec) (laws : IsCodec codec) (id : Text) (b : ApprovalBinding)
    (c : NativeConfirmation) (ttl issued_at : ℕ) {w : ApprovalRecord} {content : Text}
    (h : issue_checked codec id b c ttl issued_at ≡ ok (w, content)) where
  issued_valid :
      (normalized b ≡ ok b)
      × (validate_storage_id id ≡ ok tt)
      × (hash_json codec b ≡ ok w.binding_hash)
  unfolding issue_checked new_record normalized
  issued_valid = (ground arith, ground arith, ground arith)

  issued_record : w ≡ new_record codec b w.binding_hash c ttl issued_at
  unfolding issue_checked new_record normalized
  issued_record = ground arith

  issued_confirmed : length w.confirmation_hash ≡ 64
  unfolding new_record
  issued_confirmed =
      let e = ap (λ (r : ApprovalRecord). length r.confirmation_hash) issued_record in
      e ∙ laws.digest_length (c.client ++ bytes ":" ++ c.confirmation_id)

  issued_json :
      (json : Text) × (codec.record_json w ≡ ok json)
      × (content ≡ json ++ bytes "\n")
      × (length content ≤ 262144)
  unfolding issue_checked
  issued_json = elim (Result-cases (codec.record_json w)) [
    | inl (json, e) ↦ (json, e, ground arith, ground arith)
    | inr (x, e) ↦ absurd (ground arith)
  ]

  issued_readable : read_record codec true content ≡ ok w
  unfolding read_record
  issued_readable =
      let (json, written, same, short) = issued_json in
      ground (arith, laws.reads_back w json written)

  -- The record passes every check of `consume_at` for its own binding.
  issued_checks :
      (now : ℕ)
      → issued_at ≤ usize_max
      → now ≤ w.expires_unix_ms
      → check_record codec id b now w ≡ ok (grant_of id w consumed)
  unfolding check_record new_record
  issued_checks now small early =
      let (norm, valid, hash) = issued_valid in
      let record_is = issued_record in
      let confirmed = issued_confirmed in
      let same : w.binding ≡ b = ap (λ (r : ApprovalRecord). r.binding) record_is in
      let version : w.schema_version ≡ 1 =
        ap (λ (r : ApprovalRecord). r.schema_version) record_is in
      let start : w.issued_unix_ms ≡ issued_at =
        ap (λ (r : ApprovalRecord). r.issued_unix_ms) record_is in
      let stop = ap (λ (r : ApprovalRecord). r.expires_unix_ms) record_is in
      let lasting : w.issued_unix_ms ≤ w.expires_unix_ms = omega arith in
      ground (arith, (compare_binding_iff b b).1 refl, confirmed, lasting, same, version)

-- A grant that was issued for a state is accepted for that state: presented within its lifetime in
-- the store that the issue left, with an identifier that was never used and system calls that
-- succeed, it is consumed, and keeps its times and its binding hash.
pub consume_at-issue_at :
    (codec : Codec) (store : ApprovalStore) (id : Text) (b : ApprovalBinding)
    (c : NativeConfirmation) (ttl issued_at now : ℕ) {g : ApprovalGrant}
    → IsCodec codec
    → (issue_at codec store id true b c ttl issued_at).0 ≡ ok g
    → was_used store id ≡ false
    → issued_at ≤ usize_max
    → now ≤ g.expires_unix_ms
    → (consume_at codec quiet_calls (issue_at codec store id true b c ttl issued_at).1 id b now).0
      ≡ ok (record g { state = consumed })
unfolding consume_at claim_record take_record settle issue_at write_file_at
consume_at-issue_at codec store id b c ttl issued_at now {g} laws h fresh small early =
    elim (Result-cases (issue_checked codec id b c ttl issued_at)) [
      | inr (x, e) ↦ absurd (ground arith)
      | inl ((w, content), e) ↦ ground (
        arith,
        issued_valid codec laws id b c ttl issued_at e,
        issued_readable codec laws id b c ttl issued_at e,
        issued_checks codec laws id b c ttl issued_at e now,
      )
    ]
