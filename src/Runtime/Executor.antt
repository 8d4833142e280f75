-- ===== src/Runtime/Executor.antt =====
-- The checks that `IbmDbSandboxExecutor.execute_db2` makes before it connects
-- (runtime/executor.py).
use atlas_db_agent.Prelude.{
  Bool, true, false, not, ◌&&◌, ◌||◌, String, Option, none, some, List, map, all, str_eq, contains,
  if◌then◌else◌,
}
use atlas_db_agent.Values.{Hashes, object, Fields}
use atlas_db_agent.Runtime.Kinds.{
  LiveVerificationEligibility, manual_approval_required, prohibited, TransactionOwnership,
  executor_owned, RollbackContainment, rollback_safe, RuntimePlanStatus, blocked, Assessment, Texts,
}

-- One name for each `raise RuntimeExecutionError`.
pub data RuntimeExecutionError : Type 0 where
  live_not_requested attestation_missing assessment_missing live_prohibited : RuntimeExecutionError
  approval_missing no_rollback_without_assessment no_rollback_prohibited : RuntimeExecutionError
  plan_blocked invocation_digest_invalid inputs_missing : RuntimeExecutionError

pub data Checked : Type 0 where
  passed : Checked
  refused : RuntimeExecutionError → Checked

-- The fields of `Db2SandboxConfig`, `RuntimeInvocation` and `RuntimeVerificationPlan` that are read.
pub record SandboxConfig : Type 0 where
  pub sandbox_attestation : String
  pub manual_approval_ref : Option String
  pub rollback_after_call : Bool
  pub execute_live : Bool

pub record Invocation : Type 0 where
  pub dump : Fields
  pub parameter_names : List String
  pub content_digest : String

pub record Plan : Type 0 where
  pub plan_status : RuntimePlanStatus
  pub input_requirements : List String

infixr 5 ◌unless◌
-- `if test: raise error`, and on to the next check.
abbrev pub ◌unless◌ : Bool × RuntimeExecutionError → Checked → Checked
(test, error) unless next = if test then refused error else next

-- `not ref`
abbrev pub is_missing : Option String → Bool
is_missing none = true
is_missing (some s) = str_eq s ""

abbrev pub is_prohibited : LiveVerificationEligibility → Bool
is_prohibited prohibited = true
is_prohibited _ = false

abbrev pub needs_approval : LiveVerificationEligibility → Bool
needs_approval manual_approval_required = true
needs_approval _ = false

abbrev is_blocked : RuntimePlanStatus → Bool
is_blocked blocked = true
is_blocked _ = false

abbrev is_rollback_safe : RollbackContainment → Bool
is_rollback_safe rollback_safe = true
is_rollback_safe _ = false

abbrev pub is_executor_owned : TransactionOwnership → Bool
is_executor_owned executor_owned = true
is_executor_owned _ = false

-- The eligibility of the assessment goes before the argument.
abbrev eligibility_from :
    Option Assessment → Option LiveVerificationEligibility → Option LiveVerificationEligibility
eligibility_from none eligibility = eligibility
eligibility_from (some a) eligibility = some a.live_eligibility

-- What `rollback_after_call = false` needs of an assessment.
unfoldable pub may_escape : Assessment → Bool
may_escape a =
    not (is_rollback_safe a.rollback_containment)
    || not (is_executor_owned a.transaction_ownership)
    || a.internal_commit_present
    || not (str_eq a.commit_on_return "NO")
    || not (str_eq a.external_side_effects_status "ABSENT")

abbrev no_rollback_check : Bool → Option Assessment → Checked → Checked
no_rollback_check true assessment next = next
no_rollback_check false none next = refused no_rollback_without_assessment
no_rollback_check false (some a) next = (may_escape a, no_rollback_prohibited) unless next

module _ (h : Hashes) (t : Texts) where
  -- `_validate_invocation`
  unfoldable pub validate_invocation : Plan → Invocation → Checked
  validate_invocation plan invocation =
      (
        not (str_eq (h.canonical_digest (object invocation.dump)) invocation.content_digest),
        invocation_digest_invalid,
      )
      unless (
        not (
            all (λ name. contains (t.upper name) (map t.upper invocation.parameter_names))
              plan.input_requirements),
        inputs_missing,
      )
      unless passed

  eligibility_checks : Option LiveVerificationEligibility → SandboxConfig → Checked → Checked
  eligibility_checks none config next = refused assessment_missing
  eligibility_checks (some e) config next =
      (is_prohibited e, live_prohibited)
      unless (needs_approval e && is_missing config.manual_approval_ref, approval_missing)
      unless next

  unfoldable pub check_live :
      Plan
      → Invocation
      → SandboxConfig
      → Option Assessment
      → Option LiveVerificationEligibility
      → Checked
  unfolding may_escape validate_invocation eligibility_checks
  check_live plan invocation config assessment eligibility =
      (not config.execute_live, live_not_requested)
      unless (str_eq (t.strip config.sandbox_attestation) "", attestation_missing)
      unless eligibility_checks (eligibility_from assessment eligibility) config (
          no_rollback_check config.rollback_after_call assessment (
            (is_blocked plan.plan_status, plan_blocked) unless validate_invocation plan invocation))
