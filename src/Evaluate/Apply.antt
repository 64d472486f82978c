-- ===== src/Evaluate/Apply.antt =====
-- `evaluate_apply_patch` of crates/opticcode-policy/src/engine.rs on the original workspace: what has
-- to be observed before an approval is even asked for.
use optic_code.Evaluate.{evaluate_action}
use optic_code.Evaluate.Patch.{apply_to_original, decide_patch}
use optic_code.Evaluate.PatchSteps.{apply_patch-decided}
use optic_code.FilePath.{FilePath}
use optic_code.Host.{Host}
use optic_code.Model.{
  Allowed, GitRepositoryBoundary, NeedsApproval, PolicyRequest, allow, approved_apply,
  require_approval,
}
use optic_code.Model.Actions.{ApplyPatchAction, apply_patch}
use optic_code.Paths.{inspect_root}
use optic_code.Prelude.{
  All, Option, Option-cases, String, all-All, arith, inl, inr, length, ok, some, true, ◌≡◌, ◌≢◌,
}
use optic_code.Rules.{Inspected, RuleOutcome, approval_required, denied, ◌>>=◌}
use optic_code.Text.{Text, is_ascii_hexdigit}
use optic_code.Validate.{require_working_tree_digest, validate_hash_value}

-- The request is in the narrow apply mode, and binds the patch to an observed, clean repository at the
-- patch's base commit and to a digest of the working tree.
pub record IsApplyBound (request : PolicyRequest) (a : ApplyPatchAction) : Type 0 where
  pub narrow : request.mode ≡ approved_apply
  pub boundary : GitRepositoryBoundary
  pub observed : request.workspace.repository ≡ some boundary
  pub same_head : boundary.head ≡ a.base_head
  pub clean : request.workspace.repository_clean ≡ some true
  pub digest : Text
  pub digest_observed : request.workspace.working_tree_digest ≡ some digest
  pub digest_valid : (length digest ≡ 64) × All (λ c. is_ascii_hexdigit c ≡ true) digest

pub validate_hash_value-digest :
    (value : Text) (label : String)
    → validate_hash_value value label ≡ ok tt
    → (length value ≡ 64) × All (λ c. is_ascii_hexdigit c ≡ true) value
unfolding validate_hash_value
validate_hash_value-digest value label h =
    (ground arith, all-All is_ascii_hexdigit value (ground arith))

require_digest :
    (request : PolicyRequest)
    → require_working_tree_digest request ≡ ok tt
    → (d : Text) × (request.workspace.working_tree_digest ≡ some d)
      × (validate_hash_value d "working-tree digest" ≡ ok tt)
unfolding require_working_tree_digest
require_digest request h = elim (Option-cases request.workspace.working_tree_digest) [
  | inl (d, e) ↦ (d, e, ground arith)
  | inr e ↦ absurd (ground arith)
]

module _ (request : PolicyRequest) (a : ApplyPatchAction) (paths : Inspected) {o : RuleOutcome}
    (h : (apply_to_original request a paths).0 ≡ ok o) where
  apply_to_original-not_allow : (x : Allowed) → o.decision ≢ allow x
  unfolding apply_to_original denied approval_required ◌>>=◌
  apply_to_original-not_allow x e = ground arith

  apply_to_original-observed :
      (n : NeedsApproval)
      → o.decision ≡ require_approval n
      → (request.mode ≡ approved_apply)
        × (request.workspace.repository_clean ≡ some true)
        × (require_working_tree_digest request ≡ ok tt)
  unfolding apply_to_original denied approval_required ◌>>=◌
  apply_to_original-observed n e = (ground arith, ground arith, ground arith)

  apply_to_original-boundary :
      (n : NeedsApproval)
      → o.decision ≡ require_approval n
      → (b : GitRepositoryBoundary) × (request.workspace.repository ≡ some b)
        × (b.head ≡ a.base_head)
  unfolding apply_to_original denied approval_required ◌>>=◌
  apply_to_original-boundary n e = elim (Option-cases request.workspace.repository) [
    | inl (b, r) ↦ (b, r, ground arith)
    | inr r ↦ absurd (ground arith)
  ]

  apply_to_original-IsApplyBound :
      (n : NeedsApproval) → o.decision ≡ require_approval n → IsApplyBound request a
  apply_to_original-IsApplyBound n e =
      let (narrow, clean, digested) = apply_to_original-observed n e in
      let (b, observed, same) = apply_to_original-boundary n e in
      let (d, digest_is, valid) = require_digest request digested in
      record {
        narrow = narrow;
        boundary = b;
        observed = observed;
        same_head = same;
        clean = clean;
        digest = d;
        digest_observed = digest_is;
        digest_valid = validate_hash_value-digest d "working-tree digest" valid;
      }

decide_patch-original :
    (request : PolicyRequest) (root : FilePath) (a : ApplyPatchAction) (active : Option FilePath)
    (paths : Inspected)
    → decide_patch request root a root active paths ≡ apply_to_original request a paths
unfolding decide_patch
decide_patch-original request root a active paths = ground arith

-- A patch of the original workspace is never simply allowed, in any mode, and where it may be
-- approved the request is bound to the patch's base commit, a clean repository and a digest of the
-- working tree, all observed.
pub apply_patch-original :
    (host : Host) (request : PolicyRequest) (root : FilePath) (a : ApplyPatchAction)
    (paths : Inspected) {o : RuleOutcome}
    → inspect_root host a.root ≡ ok root
    → (evaluate_action host request root (apply_patch a) paths).0 ≡ ok o
    → ((x : Allowed) → o.decision ≢ allow x)
      × ((n : NeedsApproval) → o.decision ≡ require_approval n → IsApplyBound request a)
unfolding evaluate_action
apply_patch-original host request root a paths {o} same h =
    elim (apply_patch-decided host request root a paths h) [
      | inl long ↦ (λ x e. cc, λ n e. absurd (cc))
      | inr (r, active, late, hr, _, g) ↦
          let at_root : r ≡ root = cc in
          let g' = rw at_root at g in
          let g'' : (apply_to_original request a late).0 ≡ ok o =
            rw (decide_patch-original request root a active late) at g' in
          (
            apply_to_original-not_allow request a late g'',
            apply_to_original-IsApplyBound request a late g'',
          )
    ]
