-- ===== src/Engine/Revalidated.antt =====
-- What `PolicyPreflight::revalidate_observed` of crates/opticcode-policy/src/engine.rs has established
-- when it lets an execution go on.
use text.Mathlib.Text.{◌==◌ as str_eq}
use optic_code.Approval.{Codec}
use optic_code.Engine.{evaluate, revalidate_each, revalidate_observed, security_context_hash}
use optic_code.Engine.Report.{Evaluation, PolicyPreflight}
use optic_code.Host.{Host}
use optic_code.Model.{PolicyRequest, decision_rule_id}
use optic_code.Paths.{PathSafetyReport, report_eq, reports_eq, revalidate}
use optic_code.Prelude.{
  >>=-eq-ok, All, List, [], arith, fail_if, map_err, not, ok, true, ◌!=◌, ◌||◌, ◌∷◌, ◌≡◌,
}
use optic_code.Text.{text_eq}
use optic_code.Validate.{invalid_path_request}

module _ (host : Host) (codec : Codec) where
  revalidate_each-unchanged :
      (paths : List PathSafetyReport)
      → revalidate_each host codec paths ≡ ok tt
      → All (λ before. revalidate host before ≡ ok before) paths
  unfolding revalidate_each
  revalidate_each-unchanged [] h = tt
  revalidate_each-unchanged (before ∷ rest) h =
      let (after, again, h1) =
        >>=-eq-ok (map_err invalid_path_request (revalidate host before)) _ h in
      let (_, same, h2) = >>=-eq-ok (fail_if (before != after) _) _ h1 in
      (ground arith, revalidate_each-unchanged rest h2)

  -- An execution goes on only if nothing moved since the authorization: the request as now observed has
  -- the security context of the authorized one, its evaluation ends in the same rule and inspects the
  -- same paths with the same result, and each authorized path, inspected once more, still gives its report.
  pub revalidate_observed-unchanged :
      (authorized : PolicyPreflight) (observed : PolicyRequest)
      → revalidate_observed host codec authorized observed ≡ ok tt
      → (security_context_hash host codec observed ≡ ok authorized.security_context_hash)
        × ((fresh : Evaluation) × (evaluate host codec observed ≡ ok fresh)
            × (fresh.paths ≡ authorized.paths)
            × (str_eq (decision_rule_id fresh.report.decision) authorized.base_rule_id ≡ true))
        × All (λ before. revalidate host before ≡ ok before) authorized.paths
  unfolding revalidate_observed
  revalidate_observed-unchanged authorized observed h =
      let (context, digested, h1) = >>=-eq-ok (security_context_hash host codec observed) _ h in
      let (_, same, h2) =
        >>=-eq-ok (fail_if (context != authorized.security_context_hash) _) _ h1 in
      let (fresh, evaluated, h3) = >>=-eq-ok (evaluate host codec observed) _ h2 in
      let (_, alike, h4) =
        >>=-eq-ok
          (fail_if
            (not (str_eq (decision_rule_id fresh.report.decision) authorized.base_rule_id)
              || fresh.paths != authorized.paths)
            _)
          _ h3 in
      (
        ground arith,
        (fresh, evaluated, ground arith, ground arith),
        revalidate_each-unchanged authorized.paths h4,
      )
