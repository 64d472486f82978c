-- ===== src/Engine/Authorized.antt =====
-- What `PolicyEngine::check` of crates/opticcode-policy/src/engine.rs authorizes: an action that the
-- rules allow, or one whose approval was consumed for exactly this request.
use mathlib.Core.Path.{subst}
use optic_code.Approval.{ApprovalGrant, ApprovalStore, Codec, consume_at}
use optic_code.Approval.Binding.{ApprovalBinding, ApprovalError}
use optic_code.Audit.{AuditStore, record_event}
use optic_code.Engine.{
  approval_outcome, audit_event, authorize, authorize_by, check, check_evaluated, checked, conclude,
  ensure_state_outside_workspace, evaluate, recorded_check, security_context_hash, spend_approval,
  spend_bound, spend_id,
}
use optic_code.Engine.Binding.{approval_binding}
use optic_code.Engine.Report.{
  CheckCalls, Evaluation, PolicyEngine, PolicyPreflight, apply_approval_failure, needs_approval,
}
use optic_code.Host.{Host}
use optic_code.Model.{
  PolicyDecision, PolicyReport, PolicyRequest, allow, allowed_report, deny, is_allow,
  require_approval,
}
use optic_code.Prelude.{
  >>=-eq-ok, Option, Result, String, ap, arith, err, false, inl, inr, none, ok, ok_inj, refl, some,
  sym, true, ◌>>◌, ◌∙◌, ◌≡◌, ◌⊎◌,
}
use optic_code.Text.{Text}
use optic_code.Validate.{PolicyError}

-- The approval store took the record that this request's binding names, and is `after` then.
pub record Consumed (host : Host) (codec : Codec) (calls : CheckCalls) (store after : ApprovalStore)
    (request : PolicyRequest) (evaluation : Evaluation) : Type 0 where
  pub asks : needs_approval evaluation.report.decision ≡ true
  pub id : Text
  pub carries : request.approval_id ≡ some id
  pub binding : ApprovalBinding
  pub binds : approval_binding host codec request evaluation.paths ≡ ok binding
  pub grant : ApprovalGrant
  pub consumes : consume_at codec calls.consume store id binding calls.now_ms ≡ (ok grant, after)

-- The audit store recorded the event of a report on this request, and is `after` then; the report that
-- is handed out is this one with the identifier of the event.
pub record Recorded (host : Host) (codec : Codec) (calls : CheckCalls) (audit after : AuditStore)
    (request : PolicyRequest) (handed_out : PolicyReport) : Type 0 where
  pub report : PolicyReport
  pub status : String
  pub event : Text
  pub records :
      record_event calls.audit audit (audit_event host codec calls request report status)
      ≡ (ok event, after)
  pub handed : handed_out ≡ record report { audit_event_id = some event }

module _ (host : Host) (codec : Codec) (calls : CheckCalls) where
  conclude-report :
      (request : PolicyRequest) (evaluation : Evaluation) (report : PolicyReport)
      (recorded : Result Text Text) (audit : AuditStore) {p : PolicyPreflight}
      → (conclude host codec request evaluation report (recorded, audit)).0 ≡ ok p
      → (event : Text) × (recorded ≡ ok event)
        × (p.report ≡ record report { audit_event_id = some event })
  unfolding conclude
  conclude-report request evaluation report (ok event) audit {p} h =
      let (context, ha, hb) = >>=-eq-ok (security_context_hash host codec request) _ h in
      (event, refl, sym (ap (λ (x : PolicyPreflight). x.report) (ok_inj hb)))
  conclude-report request evaluation report (err e) audit h = absurd (ground arith)

  -- an action that may run, with the engine before and after
  abbrev pub IsLetRun :
      PolicyEngine → PolicyEngine → PolicyRequest → Evaluation → PolicyPreflight → Type 0
  IsLetRun engine after request evaluation p =
      (((allowed_report evaluation.report ≡ true) × (after.approvals ≡ engine.approvals))
        ⊎ Consumed host codec calls engine.approvals after.approvals request evaluation)
      × Recorded host codec calls engine.audit after.audit request p.report

  granted-or-failed :
      (request : PolicyRequest) (report : PolicyReport)
      (answer : Result ApprovalError ApprovalGrant × ApprovalStore) {r : PolicyReport} {s : String}
      → (approval_outcome host codec request report answer).0 ≡ ok (r, s)
      → allowed_report r ≡ true
      → (grant : ApprovalGrant) × (answer
          ≡ (ok grant, (approval_outcome host codec request report answer).1))
  unfolding apply_approval_failure allowed_report
  granted-or-failed request report (ok grant, store) h a = (grant, refl)
  granted-or-failed request report (err e, store) h a = absurd (ground arith)

  spend_bound-Consumed :
      (store : ApprovalStore) (request : PolicyRequest) (evaluation : Evaluation) (id : Text)
      (binding : Result PolicyError ApprovalBinding) {r : PolicyReport} {s : String}
      → (spend_bound host codec calls store request evaluation id binding).0 ≡ ok (r, s)
      → allowed_report r ≡ true
      → (b : ApprovalBinding) × (grant : ApprovalGrant) × (binding ≡ ok b)
        × (consume_at codec calls.consume store id b calls.now_ms
            ≡ (ok grant, (spend_bound host codec calls store request evaluation id binding).1))
  spend_bound-Consumed store request evaluation id (ok b) h a =
      let (grant, g) =
        granted-or-failed request evaluation.report
          (consume_at codec calls.consume store id b calls.now_ms) h a in
      (b, grant, refl, g)
  spend_bound-Consumed store request evaluation id (err e) h a = absurd (ground arith)

  authorize-backed :
      (store : ApprovalStore) (request : PolicyRequest) (evaluation : Evaluation) {r : PolicyReport}
      {s : String}
      → (authorize host codec calls store request evaluation).0 ≡ ok (r, s)
      → allowed_report r ≡ true
      → ((allowed_report evaluation.report ≡ true)
          × ((authorize host codec calls store request evaluation).1 ≡ store))
        ⊎ Consumed host codec calls store
            (authorize host codec calls store request evaluation).1
            request
            evaluation
  unfolding authorize spend_approval allowed_report
  authorize-backed store request evaluation {r} {s} h a =
      by_decision evaluation.report.decision refl h
    where
      by_id :
          (id : Option Text)
          → request.approval_id ≡ id
          → needs_approval evaluation.report.decision ≡ true
          → is_allow evaluation.report.decision ≡ false
          → (spend_id host codec calls store request evaluation id).0 ≡ ok (r, s)
          → Consumed host codec calls store
              (spend_id host codec calls store request evaluation id).1
              request
              evaluation
      by_id none e n f h1 = absurd (
          let same : evaluation.report ≡ r = ground arith in
          let shown : evaluation.report.decision ≡ r.decision = ap (λ z. z.decision) same in
          ground arith)
      by_id (some id) e n f h1 =
          let (b, grant, binds, g) =
            spend_bound-Consumed store request evaluation id
              (approval_binding host codec request evaluation.paths) h1 a in
          record {
            asks = n;
            id = id;
            carries = e;
            binding = b;
            binds = binds;
            grant = grant;
            consumes = g;
          }

      by_decision :
          (d : PolicyDecision)
          → evaluation.report.decision ≡ d
          → (authorize_by host codec calls store request evaluation d).0 ≡ ok (r, s)
          → ((allowed_report evaluation.report ≡ true)
              × ((authorize_by host codec calls store request evaluation d).1 ≡ store))
            ⊎ Consumed host codec calls store
                (authorize_by host codec calls store request evaluation d).1
                request
                evaluation
      by_decision (require_approval x) e h1 =
          inr (by_id request.approval_id refl (ground arith) (ground arith) h1)
      by_decision (allow x) e h1 = inl (ground arith, refl)
      by_decision (deny x) e h1 = absurd (
          let same : evaluation.report ≡ r = ground arith in
          let shown : evaluation.report.decision ≡ r.decision = ap (λ z. z.decision) same in
          ground arith)

  check_evaluated-backed :
      (engine : PolicyEngine) (request : PolicyRequest) (evaluation : Evaluation)
      {p : PolicyPreflight}
      → (check_evaluated host codec calls engine request evaluation).0 ≡ ok p
      → allowed_report p.report ≡ true
      → IsLetRun engine
          (check_evaluated host codec calls engine request evaluation).1
          request
          evaluation
          p
  unfolding check_evaluated allowed_report record_event conclude
  check_evaluated-backed engine request evaluation {p} h a =
      go (authorize host codec calls engine.approvals request evaluation) refl h
    where
      go :
          (answer : Result PolicyError (PolicyReport × String) × ApprovalStore)
          → authorize host codec calls engine.approvals request evaluation ≡ answer
          → (recorded_check host codec calls engine request evaluation answer).0 ≡ ok p
          → IsLetRun engine
              (recorded_check host codec calls engine request evaluation answer).1
              request
              evaluation
              p
      go (err e, store) same h1 = absurd (ground arith)
      go (ok (final, state), store) same h1 =
          let answer =
            record_event calls.audit engine.audit
              (audit_event host codec calls request final state) in
          let (event, wrote, handed) =
            conclude-report request evaluation final answer.0 answer.1 h1 in
          let kept = ap (λ (x : PolicyReport). x.decision) handed in
          let backed =
            authorize-backed engine.approvals request evaluation {r = final} {s = state}
              (ap (λ z. z.0) same) (let decided = sym (ap is_allow kept) ∙ a in decided) in
          (
            subst
                (λ z.
                  ((allowed_report evaluation.report ≡ true) × (z ≡ engine.approvals))
                  ⊎ Consumed host codec calls engine.approvals z request evaluation)
                (ap (λ z. z.1) same) backed,
            record {
              report = final;
              status = state;
              event = event;
              records = ap (λ r. (r, answer.1)) wrote;
              handed = handed;
            },
          )

  -- A `check` that lets an action run has evaluated this request under the rules. Either they allow the
  -- action outright and the approvals are as before, or they require an approval and the approval store
  -- of the engine afterwards is the one that consumed a grant for the binding computed from this
  -- request and the paths just inspected. The audit store of the engine afterwards is the one that
  -- recorded the event of the report, and the report names that event.
  pub check-authorized :
      (engine : PolicyEngine) (request : PolicyRequest) {p : PolicyPreflight}
      → (check host codec calls engine request).0 ≡ ok p
      → allowed_report p.report ≡ true
      → (evaluation : Evaluation) × (evaluate host codec request ≡ ok evaluation)
        × IsLetRun engine (check host codec calls engine request).1 request evaluation p
  unfolding check
  check-authorized engine request {p} h a =
      go (ensure_state_outside_workspace host codec engine request >> evaluate host codec request)
        refl h
    where
      go :
          (m : Result PolicyError Evaluation)
          → (ensure_state_outside_workspace host codec engine request
              >> evaluate host codec request)
            ≡ m
          → (checked host codec calls engine request m).0 ≡ ok p
          → (evaluation : Evaluation) × (evaluate host codec request ≡ ok evaluation)
            × IsLetRun engine (checked host codec calls engine request m).1 request evaluation p
      go (err e) same h1 = absurd (ground arith)
      go (ok evaluation) same h1 =
          let (_, _, evaluated) =
            >>=-eq-ok (ensure_state_outside_workspace host codec engine request) _ same in
          (evaluation, evaluated, check_evaluated-backed engine request evaluation h1 a)
