-- ===== src/Runtime/Verify.antt =====
-- `RuntimeVerifier.verify` (runtime/verify.py): an execution record against a plan. A finding is its
-- code and its evidence, which its identifier and its message are made of.
pub mod Verdicts
mod Examples
pub mod Records
pub use Records.*
use Prim.Native.String.{compare}
use atlas_db_agent.Prelude.Texts.{sorted_set}
use atlas_db_agent.Prelude.{
  Bool, true, false, not, ◌&&◌, ◌||◌, String, Option, none, some, List, [], ◌∷◌, ◌++◌, map, any,
  collect, contains, unique, nonempty, str_eq, opt_eq, if◌then◌else◌,
}
use atlas_db_agent.Prelude.Sorting.{sort}
use atlas_db_agent.Values.{Hashes, object, Fields}
use atlas_db_agent.Runtime.Kinds.{Texts}

abbrev value_eq : RuntimeValue → RuntimeValue → Bool
value_eq v w = str_eq v.value_kind w.value_kind && opt_eq v.canonical_value w.canonical_value

-- `expected.target or ""`
abbrev or_empty : Option String → String
or_empty none = ""
or_empty (some s) = s

-- The references that are neither None nor empty.
given_refs : List (Option String) → List String
given_refs [] = []
given_refs (none ∷ os) = given_refs os
given_refs (some s ∷ os) = let rest = given_refs os in if str_eq s "" then rest else s ∷ rest

abbrev value_matches : Option RuntimeValue → List ObservedParameter → Bool
value_matches none ps = true
value_matches (some v) ps = any (λ p. value_eq p.value v) ps

module _ (t : Texts) where
  -- `_match`
  match_parameter : Option RuntimeValue → List ObservedParameter → Bool × List String
  match_parameter v [] = (false, [])
  match_parameter v (p ∷ ps) = (value_matches v (p ∷ ps), map (λ q. q.parameter_name) (p ∷ ps))

  match_sqlstate : Option String → Bool × List String
  match_sqlstate none = (false, [])
  match_sqlstate (some s) = (true, s ∷ [])

  match_refs : String → List String → Bool × List String
  match_refs ref refs = (contains ref refs, sorted_set refs)

  call_refs : Option String → ExecutionRecord → List String
  call_refs target e =
      let name = or_empty target in
      if str_eq name ""
      then e.observed_effect_refs
      else e.observed_effect_refs
        ++ collect (λ r. str_eq (t.upper r) (t.upper name)) (λ r. r) e.called_routines

  match_call : String → Option String → List String → Bool × List String
  match_call ref target refs =
      let name = or_empty target in
      (contains ref refs || (not (str_eq name "") && contains name refs), sorted_set refs)

  match_kind : ObservationKind → ExpectedObservation → ExecutionRecord → Bool × List String
  match_kind out_parameter x e = match_parameter x.expected_value (
      collect (λ p. str_eq (t.upper p.parameter_name) (t.upper (or_empty x.target))) (λ p. p)
        e.output_parameters)
  match_kind sqlstate x e = match_sqlstate e.sqlstate_seen
  match_kind dml_effect x e =
      match_refs x.scenario_effect_ref (e.observed_effect_refs ++ given_refs e.row_change_effects)
  match_kind call_effect x e = match_call x.scenario_effect_ref x.target (call_refs x.target e)
  match_kind _ x e = match_refs x.scenario_effect_ref e.observed_effect_refs

  unfoldable pub match_observation : ExpectedObservation → ExecutionRecord → Bool × List String
  unfolding match_kind match_parameter match_sqlstate match_refs match_call call_refs given_refs
  match_observation x e = match_kind x.observation_kind x e

  -- The findings of one expectation.
  abbrev missing_code : ObservationKind → List String → FindingCode
  missing_code out_parameter (r ∷ rs) = out_parameter_value_mismatch
  missing_code _ _ = must_effect_not_observed

  unfoldable pub findings_of :
      ExpectedObservation → Bool → List String → EffectModality → List Finding
  findings_of x false observed must =
      record { code = missing_code x.observation_kind observed; evidence_ref = x.expectation_id }
      ∷ []
  findings_of x true observed must_not =
      record { code = must_not_effect_observed; evidence_ref = x.expectation_id } ∷ []
  findings_of x _ _ _ = []

  abbrev pub is_unknown : EffectModality → Bool
  is_unknown unknown_modality = true
  is_unknown _ = false

  unfoldable pub result_of : ExecutionRecord → ExpectedObservation → ExpectationResult
  unfolding findings_of
  result_of e x =
      let (hit, observed) = match_observation x e in
      record {
        expectation_ref = x.expectation_id;
        scenario_effect_ref = x.scenario_effect_ref;
        modality = x.modality;
        matched_effect = hit;
        observed_refs = observed;
        findings = findings_of x hit observed x.modality;
      }

  -- The loop: every result, and all findings in their order.
  abbrev pub results_of : ExecutionRecord → List ExpectedObservation → List ExpectationResult
  results_of e xs = map (result_of e) xs

  unfoldable pub all_findings : List ExpectationResult → List Finding
  all_findings [] = []
  all_findings (r ∷ rs) = r.findings ++ all_findings rs

  -- `conflict` is set with every finding of the loop, `inconclusive` by an UNKNOWN modality.
  abbrev pub conclude : String → List ExpectationResult → List Finding → Bool → Verification
  conclude plan_id results [] true = record {
    verification_status = inconclusive;
    expectation_results = results;
    findings = record { code = runtime_result_inconclusive; evidence_ref = plan_id } ∷ [];
    static_runtime_conflict = false;
  }
  conclude plan_id results [] false = record {
    verification_status = matched;
    expectation_results = results;
    findings = [];
    static_runtime_conflict = false;
  }
  conclude plan_id results (f ∷ fs) unknown = record {
    verification_status = mismatch;
    expectation_results = results;
    findings =
        (f ∷ fs) ++ record { code = static_runtime_evidence_conflict; evidence_ref = plan_id } ∷ [];
    static_runtime_conflict = true;
  }

  unfoldable pub verify_executed :
      VerificationPlan → ExecutionRecord → ExecutionStatus → Verification
  unfolding all_findings
  verify_executed p e failed = record {
    verification_status = execution_failed;
    expectation_results = [];
    findings = record { code = execution_error; evidence_ref = e.execution_id } ∷ [];
    static_runtime_conflict = false;
  }
  verify_executed p e blocked_execution = record {
    verification_status = blocked;
    expectation_results = [];
    findings = [];
    static_runtime_conflict = false;
  }
  verify_executed p e succeeded =
      let results = results_of e p.expected_observations in
      conclude p.plan_id results (all_findings results)
        (any (λ x. is_unknown x.modality) p.expected_observations)

abbrev found_if : Bool → FindingCode → String → List Finding → List Finding
found_if true code ref rest = record { code = code; evidence_ref = ref } ∷ rest
found_if false code ref rest = rest

module _ (h : Hashes) (t : Texts) where
  -- The findings before the loop.
  unfoldable pub digest_findings : VerificationPlan → ExecutionRecord → List Finding
  digest_findings p e =
      found_if (not (str_eq (h.canonical_digest (object p.dump)) p.content_digest))
        runtime_plan_digest_invalid p.plan_id
        (found_if (not (str_eq (h.canonical_digest (object e.dump)) e.content_digest))
          execution_record_digest_invalid e.execution_id
          (found_if
            (not (str_eq e.plan_ref p.plan_id) || not (str_eq e.plan_digest p.content_digest))
            plan_script_mismatch e.execution_id []))

  abbrev pub verify_checked : VerificationPlan → ExecutionRecord → List Finding → Verification
  verify_checked p e [] = verify_executed t p e e.execution_status
  verify_checked p e (f ∷ fs) = record {
    verification_status = blocked;
    expectation_results = [];
    findings = f ∷ fs;
    static_runtime_conflict = false;
  }

  unfoldable pub verify : VerificationPlan → ExecutionRecord → Verification
  unfolding digest_findings verify_executed
  verify p e = verify_checked p e (digest_findings p e)
