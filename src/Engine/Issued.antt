-- ===== src/Engine/Issued.antt =====
-- When `PolicyEngine::issue_approval` of crates/opticcode-policy/src/engine.rs issues a grant.
use optic_code.Approval.{
  ApprovalGrant, ApprovalRecord, ApprovalStore, Codec, NativeConfirmation, available, issue_at,
  issue_checked, new_record,
}
use optic_code.Approval.Binding.{ApprovalBinding}
use optic_code.Engine.{
  ensure_state_outside_workspace, evaluate, issue_approval, issue_binding, issue_bound,
}
use optic_code.Engine.Binding.{approval_binding}
use optic_code.Engine.Report.{Evaluation, PolicyEngine, needs_approval}
use optic_code.Host.{Host}
use optic_code.Model.{PolicyRequest}
use optic_code.Prelude.{
  >>=-eq-ok, Bool, Result-cases, arith, fail_if, inl, inr, is_some, none, not, ok, true, ℕ, ◌*◌,
  ◌+◌, ◌≡◌, ◌≤◌,
}
use optic_code.Text.{Text}

issue_checked-ttl :
    (codec : Codec) (id : Text) (binding : ApprovalBinding) (confirmation : NativeConfirmation)
    (ttl now : ℕ) {w : ApprovalRecord × Text}
    → issue_checked codec id binding confirmation ttl now ≡ ok w
    → (1 ≤ ttl)
      × (ttl ≤ 1800)
      × (w.0.issued_unix_ms ≡ now)
      × (w.0.expires_unix_ms ≤ now + ttl * 1000)
unfolding issue_checked new_record
issue_checked-ttl codec id binding confirmation ttl now h =
    (ground arith, ground arith, ground arith, ground arith)

issue_at-granted :
    (codec : Codec) (store : ApprovalStore) (id : Text) (created : Bool) (binding : ApprovalBinding)
    (confirmation : NativeConfirmation) (ttl now : ℕ) {g : ApprovalGrant}
    → (issue_at codec store id created binding confirmation ttl now).0 ≡ ok g
    → (1 ≤ ttl) × (ttl ≤ 1800) × (g.state ≡ available) × (g.expires_unix_ms ≤ now + ttl * 1000)
unfolding issue_at
issue_at-granted codec store id created binding confirmation ttl now h =
    elim (Result-cases (issue_checked codec id binding confirmation ttl now)) [
      | inr (x, e) ↦ absurd (ground arith)
      | inl (w, e) ↦
          let (low_ttl, high_ttl, starts, ends) =
            issue_checked-ttl codec id binding confirmation ttl now e in
          (low_ttl, high_ttl, ground arith, ground arith)
    ]

module _ (host : Host) (codec : Codec) where
  issue_binding-needed :
      (engine : PolicyEngine) (request : PolicyRequest) {b : ApprovalBinding}
      → issue_binding host codec engine request ≡ ok b
      → (request.approval_id ≡ none)
        × ((evaluation : Evaluation) × (evaluate host codec request ≡ ok evaluation)
            × (needs_approval evaluation.report.decision ≡ true)
            × (approval_binding host codec request evaluation.paths ≡ ok b))
  unfolding issue_binding
  issue_binding-needed engine request h =
      let (_, _, h1) = >>=-eq-ok (ensure_state_outside_workspace host codec engine request) _ h in
      let (_, bare, h2) = >>=-eq-ok (fail_if (is_some request.approval_id) _) _ h1 in
      let (evaluation, evaluated, h3) = >>=-eq-ok (evaluate host codec request) _ h2 in
      let (_, needed, binds) =
        >>=-eq-ok (fail_if (not (needs_approval evaluation.report.decision)) _) _ h3 in
      (ground arith, (evaluation, evaluated, ground arith, binds))

  -- A grant is issued only for a request that the rules put before a person and that carries no
  -- approval yet, for the binding of this request, with a lifetime of one second to half an hour.
  pub issue_approval-needed :
      (engine : PolicyEngine) (request : PolicyRequest) (confirmation : NativeConfirmation)
      (ttl : ℕ) (id : Text) (created : Bool) (now : ℕ) {g : ApprovalGrant}
      → (issue_approval host codec engine request confirmation ttl id created now).0 ≡ ok g
      → (request.approval_id ≡ none)
        × ((evaluation : Evaluation) × (binding : ApprovalBinding) × (evaluate host codec request
              ≡ ok evaluation)
            × (needs_approval evaluation.report.decision ≡ true)
            × (approval_binding host codec request evaluation.paths ≡ ok binding)
            × ((issue_at codec engine.approvals id created binding confirmation ttl now).0 ≡ ok g))
        × ((1 ≤ ttl)
            × (ttl ≤ 1800)
            × (g.state ≡ available)
            × (g.expires_unix_ms ≤ now + ttl * 1000))
  unfolding issue_approval
  issue_approval-needed engine request confirmation ttl id created now {g} h =
      elim (Result-cases (issue_binding host codec engine request)) [
        | inr (x, e) ↦ let h1 = rw e at h in absurd (ground arith)
        | inl (binding, e) ↦
            let h1 : (issue_bound host codec engine confirmation ttl id created now (ok binding)).0
                ≡ ok g =
              rw e at h in
            let granted : (issue_at codec engine.approvals id created binding confirmation ttl
                  now).0
                ≡ ok g =
              ground arith in
            let (bare, asked) = issue_binding-needed engine request e in
            let (evaluation, evaluated, needed, binds) = asked in
            (
              bare,
              (evaluation, binding, evaluated, needed, binds, granted),
              issue_at-granted codec engine.approvals id created binding confirmation ttl now
                  granted,
            )
      ]
