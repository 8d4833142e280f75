-- ===== src/Runtime/Verify/Records.antt =====
-- Plans, execution records and verifications (runtime/models.py), as far as `verify` reads them.
use atlas_db_agent.Prelude.{Bool, String, Option, List}
use atlas_db_agent.Values.{Fields}

pub data EffectModality : Type 0 where
  must must_if_caller_contract_holds may must_not unknown_modality : EffectModality

pub data ObservationKind : Type 0 where
  out_parameter dml_effect call_effect sqlstate result_set effect_reference : ObservationKind

pub data ExecutionStatus : Type 0 where
  succeeded failed blocked_execution : ExecutionStatus

pub data VerificationStatus : Type 0 where
  matched mismatch inconclusive blocked execution_failed : VerificationStatus

-- `execution_error` is the code EXECUTION_FAILED.
pub data FindingCode : Type 0 where
  scenario_spec_digest_invalid observation_script_digest_invalid : FindingCode
  live_verification_prohibited manual_approval_required missing_required_input : FindingCode
  execution_evidence_incomplete live_adapter_unavailable sandbox_attestation_required : FindingCode
  runtime_plan_digest_invalid execution_record_digest_invalid plan_script_mismatch : FindingCode
  must_effect_not_observed must_not_effect_observed out_parameter_value_mismatch : FindingCode
  static_runtime_evidence_conflict execution_error runtime_result_inconclusive : FindingCode

-- The kind of a `RuntimeValue` is held as its text.
pub record RuntimeValue : Type 0 where
  pub value_kind : String
  pub canonical_value : Option String

pub record ExpectedObservation : Type 0 where
  pub expectation_id : String
  pub scenario_effect_ref : String
  pub modality : EffectModality
  pub observation_kind : ObservationKind
  pub target : Option String
  pub expected_value : Option RuntimeValue

pub record ObservedParameter : Type 0 where
  pub parameter_name : String
  pub value : RuntimeValue

pub record ExecutionRecord : Type 0 where
  pub dump : Fields
  pub execution_id : String
  pub plan_ref : String
  pub plan_digest : String
  pub execution_status : ExecutionStatus
  pub output_parameters : List ObservedParameter
  pub sqlstate_seen : Option String
  pub observed_effect_refs : List String
  pub row_change_effects : List (Option String)
  pub called_routines : List String
  pub content_digest : String

pub record VerificationPlan : Type 0 where
  pub dump : Fields
  pub plan_id : String
  pub expected_observations : List ExpectedObservation
  pub content_digest : String

pub record Finding : Type 0 where
  pub code : FindingCode
  pub evidence_ref : String

pub record ExpectationResult : Type 0 where
  pub expectation_ref : String
  pub scenario_effect_ref : String
  pub modality : EffectModality
  pub matched_effect : Bool
  pub observed_refs : List String
  pub findings : List Finding

pub record Verification : Type 0 where
  pub verification_status : VerificationStatus
  pub expectation_results : List ExpectationResult
  pub findings : List Finding
  pub static_runtime_conflict : Bool
