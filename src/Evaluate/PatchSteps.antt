-- ===== src/Evaluate/PatchSteps.antt =====
-- The steps of `evaluate_apply_patch` in crates/opticcode-policy/src/engine.rs that stand before its
-- decision.
use optic_code.Evaluate.Patch.{decide_patch, evaluate_apply_patch}
use optic_code.FilePath.{FilePath}
use optic_code.Host.{Host}
use optic_code.Model.{PolicyDecision, PolicyRequest, deny, high, max_policy_paths}
use optic_code.Model.Actions.{ApplyPatchAction}
use optic_code.Paths.{inspect_root}
use optic_code.Prelude.{
  Bool-cases, Option, arith, inl, inr, length, ltb, ok, saturating_add, ◌≡◌, ◌⊎◌,
}
use optic_code.Rules.{>>=-eq-ok, Inspected, RuleOutcome, denied, done, try}
use optic_code.Text.{bytes}
use optic_code.Worktree.{validated_active_worktree}

-- A patch beyond the path bound.
abbrev pub too_many_paths : PolicyDecision
too_many_paths = deny (record {
  rule_id = "action.path_limit";
  reason = bytes "The patch contains too many paths.";
  risk = high;
})

-- A patch that gets an answer is too long, or passed its validators and is decided by
-- `decide_patch` at its canonical root, with the worktree that the request holds.
pub apply_patch-decided :
    (host : Host) (request : PolicyRequest) (root : FilePath) (a : ApplyPatchAction)
    (paths : Inspected) {o : RuleOutcome}
    → (evaluate_apply_patch host request root a paths).0 ≡ ok o
    → (o.decision ≡ too_many_paths)
      ⊎ ((r : FilePath) × (active : Option FilePath) × (late : Inspected) × (inspect_root host
              a.root
            ≡ ok r)
          × (validated_active_worktree host request root ≡ ok active)
          × ((decide_patch request root a r active late).0 ≡ ok o))
unfolding evaluate_apply_patch denied try done
apply_patch-decided host request root a paths h =
    let (_, p1, _, h1) = >>=-eq-ok _ _ paths h in
    elim (Bool-cases
      (ltb max_policy_paths (saturating_add (length a.paths) (length a.created_paths)))) [
        | inl long ↦ let h2 = rw long at h1 in inl (ground arith)
        | inr short ↦
            let h2 = rw short at h1 in
            let (r, p2, hr, h3) = >>=-eq-ok _ _ p1 h2 in
            let (active, p3, ha, h4) = >>=-eq-ok _ _ p2 h3 in
            let (_, p4, _, h5) = >>=-eq-ok _ _ p3 h4 in
            let (_, p5, _, h6) = >>=-eq-ok _ _ p4 h5 in inr (r, active, p5, hr, ha, h6)
      ]
