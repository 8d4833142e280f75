-- ===== src/Runtime/Kinds.antt =====
-- What the safety assessment reads and returns: the enumerations of analysis/models.py,
-- parsing/models.py and runtime/models.py, and the records around them.
use atlas_db_agent.Prelude.{Bool, String, Option, List}

pub data EffectKind : Type 0 where
  out_parameter_assignment dml call dynamic_sql commit rollback signal resignal : EffectKind
  sequence_value_acquisition result_set_return state_assignment : EffectKind

pub data EffectObservability : Type 0 where
  intermediate_effect escaping_effect committed_effect rolled_back_effect : EffectObservability
  overwritten_output_assignment handled_condition : EffectObservability
  unhandled_escaping_condition unresolved_effect_boundary : EffectObservability
  transaction_survival_unresolved conditionally_committed_effect : EffectObservability

pub data DynamicSqlResolutionStatus : Type 0 where
  statically_reconstructed enumerable_variants partially_reconstructed : DynamicSqlResolutionStatus
  runtime_capture_required unresolved_dynamic_sql : DynamicSqlResolutionStatus
  dynamic_variant_budget_exceeded : DynamicSqlResolutionStatus

pub data ParseOutcome : Type 0 where
  parses_complete parses_partial refuses_expected refuses_unexpected : ParseOutcome

pub data LiveVerificationEligibility : Type 0 where
  db2_sandbox_allowed manual_approval_required prohibited : LiveVerificationEligibility

unfoldable pub eligibility_value : LiveVerificationEligibility → String
eligibility_value db2_sandbox_allowed = "DB2_SANDBOX_ALLOWED"
eligibility_value manual_approval_required = "MANUAL_APPROVAL_REQUIRED"
eligibility_value prohibited = "PROHIBITED"

pub data TransactionOwnership : Type 0 where
  executor_owned caller_controlled procedure_controlled mixed unknown_owner : TransactionOwnership

unfoldable pub ownership_value : TransactionOwnership → String
ownership_value executor_owned = "EXECUTOR_OWNED"
ownership_value caller_controlled = "CALLER_CONTROLLED"
ownership_value procedure_controlled = "PROCEDURE_CONTROLLED"
ownership_value mixed = "MIXED"
ownership_value unknown_owner = "UNKNOWN"

pub data RollbackContainment : Type 0 where
  rollback_safe caller_rollback_possible not_guaranteed : RollbackContainment
  unknown_containment : RollbackContainment

unfoldable pub containment_value : RollbackContainment → String
containment_value rollback_safe = "ROLLBACK_SAFE"
containment_value caller_rollback_possible = "CALLER_ROLLBACK_POSSIBLE"
containment_value not_guaranteed = "NOT_GUARANTEED"
containment_value unknown_containment = "UNKNOWN"

pub data RuntimePlanStatus : Type 0 where
  ready_scripted ready_db2_sandbox plan_needs_approval blocked : RuntimePlanStatus

-- The fields of `EffectCandidate` and `DynamicSqlSite` that the assessment reads.
pub record Effect : Type 0 where
  pub effect_id : String
  pub effect_kind : EffectKind
  pub observability : EffectObservability
  pub source_node_ref : String

pub record DynamicSqlSite : Type 0 where
  pub site_id : String
  pub resolution_status : DynamicSqlResolutionStatus

-- `parse_result.ast`: its COMMIT ON RETURN clause.
pub record ProcedureAst : Type 0 where
  pub commit_on_return : Option String

pub record ParseResult : Type 0 where
  pub outcome : ParseOutcome
  pub ast : Option ProcedureAst

pub record SemanticResult : Type 0 where
  pub effects : List Effect
  pub dynamic_sql_sites : List DynamicSqlSite

-- `RuntimeSafetyAssessment`
pub record Assessment : Type 0 where
  pub assessment_id : String
  pub procedure_identity_ref : String
  pub internal_commit_present : Bool
  pub explicit_rollback_present : Bool
  pub commit_on_return : String
  pub unresolved_call_boundaries : List String
  pub unresolved_dynamic_boundaries : List String
  pub external_side_effects_status : String
  pub transaction_ownership : TransactionOwnership
  pub rollback_containment : RollbackContainment
  pub live_eligibility : LiveVerificationEligibility
  pub reason_codes : List String
  pub evidence_refs : List String
  pub content_digest : String

-- Python's `str.upper` and `str.strip`.
pub record Texts : Type 0 where
  pub upper : String → String
  pub strip : String → String
