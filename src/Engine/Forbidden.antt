-- ===== src/Engine/Forbidden.antt =====
-- The actions that crates/opticcode-policy/src/engine.rs refuses whatever the mode, the workspace and
-- the approvals are.
use optic_code.Approval.{Codec}
use optic_code.Engine.{check, evaluate}
use optic_code.Engine.Authorized.{check-authorized}
use optic_code.Engine.Binding.{action_hash}
use optic_code.Engine.Report.{CheckCalls, Evaluation, PolicyEngine, PolicyPreflight, outcome_of}
use optic_code.Evaluate.{evaluate_action, evaluate_git_write}
use optic_code.FilePath.{FilePath}
use optic_code.Host.{Host}
use optic_code.Model.{PolicyRequest, allowed_report}
use optic_code.Model.Actions.{
  PolicyAction, elevate_privileges, git_push, git_write, modify_policy, network_access,
  package_install, publish, unknown_action,
}
use optic_code.Paths.{inspect_root}
use optic_code.Prelude.{
  >>=-eq-ok, Bool, Bool-cases, [], ap, arith, err, false, inl, inr, map_err, ok, sym, true, ◌≡◌,
}
use optic_code.Request.{validate_request}
use optic_code.Rules.{Inspected, denied, denied_by, is_deny, ◌>>=◌}
use optic_code.Validate.{invalid_path_request}

abbrev pub is_forbidden : PolicyAction → Bool
is_forbidden unknown_action = true
is_forbidden modify_policy = true
is_forbidden elevate_privileges = true
is_forbidden (git_push _) = true
is_forbidden (network_access _ _) = true
is_forbidden (package_install _ _) = true
is_forbidden (publish _ _) = true
is_forbidden (git_write _) = true
is_forbidden _ = false

module _ (host : Host) where
  forbidden-refused :
      (request : PolicyRequest) (root : FilePath) (a : PolicyAction) (paths : Inspected)
      → is_forbidden a ≡ true
      → is_deny (outcome_of (evaluate_action host request root a paths).0).decision ≡ true
  unfolding evaluate_action evaluate_git_write denied denied_by outcome_of ◌>>=◌
  forbidden-refused request root unknown_action paths f = ground arith
  forbidden-refused request root modify_policy paths f = ground arith
  forbidden-refused request root elevate_privileges paths f = ground arith
  forbidden-refused request root (git_push a) paths f = ground arith
  forbidden-refused request root (network_access d p) paths f = ground arith
  forbidden-refused request root (package_install e p) paths f = ground arith
  forbidden-refused request root (publish t a) paths f = ground arith
  forbidden-refused request root (git_write a) paths f = ground arith
  forbidden-refused request root _ paths f = ground arith

module _ (host : Host) (codec : Codec) where
  -- The decision of an evaluation is that of the rules, from an empty list of paths.
  evaluate-decision :
      (request : PolicyRequest) {e : Evaluation}
      → evaluate host codec request ≡ ok e
      → (root : FilePath) × (e.report.decision
          ≡ (outcome_of (evaluate_action host request root request.action []).0).decision)
  unfolding evaluate
  evaluate-decision request {e} h =
      let (_, _, h1) = >>=-eq-ok (validate_request host request) _ h in
      let (root, _, h2) =
        >>=-eq-ok (map_err invalid_path_request (inspect_root host request.workspace.root)) _ h1 in
      let (_, _, h3) = >>=-eq-ok (action_hash host request.action) _ h2 in
      (root, ap (λ r. elim r [ ok x ↦ x.report.decision | err _ ↦ e.report.decision ]) (sym h3))

  denied_stays :
      (calls : CheckCalls) (engine : PolicyEngine) (request : PolicyRequest) {p : PolicyPreflight}
      → is_forbidden request.action ≡ true
      → (check host codec calls engine request).0 ≡ ok p
      → allowed_report p.report ≡ true
      → ⊥
  unfolding allowed_report
  denied_stays calls engine request f h a =
      let (evaluation, evaluated, let_run) = check-authorized host codec calls engine request h a in
      let backed = let_run.0 in
      let (root, decided) = evaluate-decision request evaluated in
      let refused = forbidden-refused host request root request.action [] f in
      let refused' : is_deny evaluation.report.decision ≡ true = rw decided refused in
      elim backed [
        | inl let_through ↦ let allows = let_through.0 in ground arith
        | inr spent ↦ let asked = spent.asks in ground arith
      ]

  -- No check ever authorizes a forbidden action: not in any mode, not in any workspace, and not with an
  -- approval, whatever the approval store answers.
  pub check-forbidden :
      (calls : CheckCalls) (engine : PolicyEngine) (request : PolicyRequest) {p : PolicyPreflight}
      → is_forbidden request.action ≡ true
      → (check host codec calls engine request).0 ≡ ok p
      → allowed_report p.report ≡ false
  check-forbidden calls engine request {p} f h = elim (Bool-cases (allowed_report p.report)) [
    | inl yes_allowed ↦ absurd (denied_stays calls engine request f h yes_allowed)
    | inr refused ↦ refused
  ]
