-- ===== src/Rules.antt =====
-- The outcomes of the rules of crates/opticcode-policy/src/engine.rs, and the evaluation that
-- collects the inspected paths: a `&mut Vec<PathSafetyReport>` keeps what was pushed before an early
-- return or an error, so the list comes back beside both.
use optic_code.Model.{PolicyDecision, RiskLevel, allow, critical, deny, high, low, require_approval}
use optic_code.Paths.{Checked, PathSafetyReport}
use optic_code.Prelude.{
  Bool, List, Result-cases, String, [], arith, err, false, inl, inr, ok, true, ◌++◌, ◌∷◌, ◌≡◌,
}
use optic_code.Text.{Text, bytes}

pub record RuleOutcome : Type 0 where
  pub decision : PolicyDecision
  pub user_reason : Text
  pub technical_reason : Text
  pub recommended : Text
  pub retriable : Bool

unfoldable pub allowed : String → String → List String → String → String → RuleOutcome
allowed rule_id scope conditions user_reason technical_reason = record {
  decision =
      allow (record { rule_id = rule_id; risk = low; scope = scope; conditions = conditions });
  user_reason = bytes user_reason;
  technical_reason = bytes technical_reason;
  recommended = bytes "Proceed through the structured executor and revalidate before and after.";
  retriable = false;
}

unfoldable pub approval_required : String → RiskLevel → String → String → String → RuleOutcome
approval_required rule_id risk user_reason technical_reason recommended = record {
  decision = require_approval (record {
    rule_id = rule_id;
    reason = bytes user_reason;
    risk = risk;
    summary = bytes technical_reason;
  });
  user_reason = bytes user_reason;
  technical_reason = bytes technical_reason;
  recommended = bytes recommended;
  retriable = true;
}

-- `denied`, for a technical reason that is built at run time too
unfoldable pub denied_by : String → RiskLevel → String → Text → String → Bool → RuleOutcome
denied_by rule_id risk user_reason technical_reason recommended retriable = record {
  decision = deny (record { rule_id = rule_id; reason = bytes user_reason; risk = risk });
  user_reason = bytes user_reason;
  technical_reason = technical_reason;
  recommended = bytes recommended;
  retriable = retriable;
}

unfoldable pub denied : String → RiskLevel → String → String → String → Bool → RuleOutcome
unfolding denied_by
denied rule_id risk user_reason technical_reason recommended retriable =
    denied_by rule_id risk user_reason (bytes technical_reason) recommended retriable

unfoldable pub read_only_write_denied : RuleOutcome
unfolding denied
read_only_write_denied =
    denied "mode.read_only_write_denied" high
      "The current read_only mode cannot write or mutate state."
      "No approval can widen read_only mode implicitly."
      "Start an explicit worktree proposal or approved apply flow." true

unfoldable pub outside_scope_denied : RuleOutcome
unfolding denied
outside_scope_denied =
    denied "path.outside_authorized_root" critical
      "The action target is outside its authorized root."
      "The target is neither the canonical workspace nor its active leased worktree."
      "Use a path inside the current workspace or active proposal worktree." false

abbrev pub is_deny : PolicyDecision → Bool
is_deny (deny _) = true
is_deny _ = false

abbrev pub Inspected : Type 0
Inspected = List PathSafetyReport

abbrev pub Eval : Type 0 → Type 0
Eval A = Inspected → Checked A × Inspected

-- `Ok(a)`, `e?` and `paths.push(report)`
unfoldable pub done : {A : Type 0} → A → Eval A
done a paths = (ok a, paths)

unfoldable pub try : {A : Type 0} → Checked A → Eval A
try r paths = (r, paths)

unfoldable pub push : PathSafetyReport → Eval Unit
push report paths = (ok tt, paths ++ report ∷ [])

abbrev then_eval : {A B : Type 0} → Checked A → (A → Eval B) → Eval B
then_eval (ok a) f paths = f a paths
then_eval (err e) f paths = (err e, paths)

infixl 5 ◌>>=◌ ◌>>◌
unfoldable pub ◌>>=◌ : {A B : Type 0} → Eval A → (A → Eval B) → Eval B
unfolding done try push
◌>>=◌ m f paths = let (r, paths') = m paths in then_eval r f paths'

abbrev pub ◌>>◌ : {B : Type 0} → Eval Unit → Eval B → Eval B
m >> k = m >>= λ _. k

-- A step that went on, and the rest of the evaluation behind it.
pub >>=-eq-ok :
    {A B : Type 0} (m : Eval A) (f : A → Eval B) (paths : Inspected) {b : B}
    → ((m >>= f) paths).0 ≡ ok b
    → (a : A) × (next : Inspected) × ((m paths).0 ≡ ok a) × ((f a next).0 ≡ ok b)
unfolding ◌>>=◌
>>=-eq-ok m f paths h = elim (Result-cases (m paths).0) [
  | inl (a, e) ↦ (a, (m paths).1, e, ground arith)
  | inr (x, e) ↦ absurd (ground arith)
]
