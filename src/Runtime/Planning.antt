-- ===== src/Runtime/Planning.antt =====
-- The plan of a live verification: `RuntimeVerificationPlanner` of runtime/plan.py. Of a plan, what
-- is copied from the specification but its identifier, its own identifier and digest are left out.
use mathlib.Core.Option.{map as option_map}
use atlas_db_agent.Prelude.{
  Bool, String, Option, none, some, List, [], ◌∷◌, ◌++◌, map, str_eq, if◌then◌else◌, collect,
  nonempty, ◌||◌,
}
use atlas_db_agent.Prelude.Texts.{sorted_set, sort_on, identifier, last_with}
use atlas_db_agent.Values.{Hashes, Value, object, text, texts, null, dict, opt_text}
use atlas_db_agent.Runtime.Kinds.{
  EffectKind, LiveVerificationEligibility, prohibited, manual_approval_required,
  db2_sandbox_allowed, RuntimePlanStatus, ready_scripted, ready_db2_sandbox, plan_needs_approval,
  blocked, Assessment,
}
use atlas_db_agent.Runtime.Verify.Records.{
  EffectModality, ObservationKind, RuntimeValue, ExpectedObservation,
}
use atlas_db_agent.Analysis.Modality.{modality_value}

-- What Python knows of the text of a literal: `quoted` is the text between single quotes, `integer`
-- and `decimal` are the canonical numbers, if the text is one.
pub record Literals : Type 0 where
  pub upper : String → String
  pub strip : String → String
  pub quoted : String → Option String
  pub integer : String → Option String
  pub decimal : String → Option String

-- The fields of `EffectCandidate` that the plan reads.
pub record PlannedEffect : Type 0 where
  pub effect_id : String
  pub effect_kind : EffectKind
  pub target : Option String
  pub value_expression : Option String
  pub evidence_refs : List String

pub record ScenarioEffect : Type 0 where
  pub effect_ref : String
  pub modality : EffectModality

pub record Scenario : Type 0 where
  pub scenario_spec_id : String
  pub expected_effects : List ScenarioEffect
  pub alternative_or_conditional_effects : List ScenarioEffect

pub record Parameter : Type 0 where
  pub name : String
  pub mode : String

pub record PlannedRun : Type 0 where
  pub scenario_spec_ref : String
  pub input_requirements : List String
  pub expected_observations : List ExpectedObservation
  pub safety_assessment_ref : String
  pub plan_status : RuntimePlanStatus
  pub blockers : List String

-- `_kind`
abbrev pub kind_of : EffectKind → ObservationKind
kind_of EffectKind.out_parameter_assignment = ObservationKind.out_parameter
kind_of EffectKind.dml = ObservationKind.dml_effect
kind_of EffectKind.dynamic_sql = ObservationKind.dml_effect
kind_of EffectKind.call = ObservationKind.call_effect
kind_of EffectKind.signal = ObservationKind.sqlstate
kind_of EffectKind.resignal = ObservationKind.sqlstate
kind_of _ = ObservationKind.effect_reference

abbrev pub kind_value : ObservationKind → String
kind_value ObservationKind.out_parameter = "OUT_PARAMETER"
kind_value ObservationKind.dml_effect = "DML_EFFECT"
kind_value ObservationKind.call_effect = "CALL_EFFECT"
kind_value ObservationKind.sqlstate = "SQLSTATE"
kind_value ObservationKind.result_set = "RESULT_SET"
kind_value ObservationKind.effect_reference = "EFFECT_REFERENCE"

abbrev pub runtime_value : String → Option String → RuntimeValue
runtime_value kind v = record { value_kind = kind; canonical_value = v }

-- `_literal_value`
unfoldable pub literal_value : Literals → Option String → Option RuntimeValue
literal_value t none = none
literal_value t (some expression) =
    let s = t.strip expression in
    if str_eq (t.upper s) "NULL" then some (runtime_value "NULL" none) else elim (t.quoted s) [
      | some q ↦ some (runtime_value "STRING" (some q))
      | none ↦ elim (t.integer s) [
        | some n ↦ some (runtime_value "INTEGER" (some n))
        | none ↦ elim (t.decimal s) [
          | some d ↦ some (runtime_value "DECIMAL" (some d))
          | none ↦ none
        ]
      ]
    ]

abbrev pub expected_value_of : Literals → PlannedEffect → Option RuntimeValue
expected_value_of t e = elim e.effect_kind [
  | EffectKind.out_parameter_assignment ↦ literal_value t e.value_expression
  | _ ↦ none
]

abbrev pub value_dump : Option RuntimeValue → Value
value_dump none = null
value_dump (some v) = object (
    dict (("value_kind", text v.value_kind) ∷ ("canonical_value", opt_text v.canonical_value) ∷ []))

module _ (h : Hashes) (t : Literals) where
  unfoldable pub expectation_of : ScenarioEffect → PlannedEffect → ExpectedObservation
  unfolding literal_value
  expectation_of s e =
      let expected = expected_value_of t e in
      record {
        expectation_id = identifier h.sha256_hex "runtime-expectation-" (
            h.canonical_digest (
              object (
                dict (
                  ("scenario_effect_ref", text s.effect_ref)
                  ∷ ("modality", text (modality_value s.modality))
                  ∷ ("observation_kind", text (kind_value (kind_of e.effect_kind)))
                  ∷ ("target", opt_text e.target)
                  ∷ ("expected_value", value_dump expected)
                  ∷ ("evidence_refs", texts e.evidence_refs)
                  ∷ []))));
        scenario_effect_ref = s.effect_ref;
        modality = s.modality;
        observation_kind = kind_of e.effect_kind;
        target = e.target;
        expected_value = expected;
      }

  -- `effects.get(scenario_effect.effect_ref)`
  abbrev pub effect_for : List PlannedEffect → String → Option PlannedEffect
  effect_for effects ref = last_with (λ e. some e.effect_id) (λ e. e) ref effects

  unfoldable pub observed_effects :
      List PlannedEffect → List ScenarioEffect → List ExpectedObservation
  unfolding expectation_of
  observed_effects effects [] = []
  observed_effects effects (s ∷ ss) = elim (effect_for effects s.effect_ref) [
    | none ↦ observed_effects effects ss
    | some e ↦ expectation_of s e ∷ observed_effects effects ss
  ]

  -- `_expectations`
  unfoldable pub expectations : List PlannedEffect → Scenario → List ExpectedObservation
  unfolding observed_effects
  expectations effects spec =
      sort_on (λ x. x.expectation_id)
        (observed_effects effects
          (spec.expected_effects ++ spec.alternative_or_conditional_effects))

  abbrev pub status_for : LiveVerificationEligibility → RuntimePlanStatus
  status_for prohibited = ready_scripted
  status_for manual_approval_required = plan_needs_approval
  status_for db2_sandbox_allowed = ready_db2_sandbox

  abbrev pub live_blockers : LiveVerificationEligibility → List String
  live_blockers prohibited = "LIVE_VERIFICATION_PROHIBITED" ∷ []
  live_blockers _ = []

  abbrev pub is_input : Parameter → Bool
  is_input p = str_eq p.mode "IN" || str_eq p.mode "INOUT"

  unfoldable pub plan_of : List PlannedEffect → List Parameter → Assessment → Scenario → PlannedRun
  unfolding expectations
  plan_of effects parameters safety spec =
      let xs = expectations effects spec in
      record {
        scenario_spec_ref = spec.scenario_spec_id;
        input_requirements = collect is_input (λ p. p.name) parameters;
        expected_observations = xs;
        safety_assessment_ref = safety.assessment_id;
        plan_status = if nonempty xs then status_for safety.live_eligibility else blocked;
        blockers = sorted_set (
            (if nonempty xs then [] else "NO_RUNTIME_OBSERVABLE_EFFECT" ∷ [])
            ++ live_blockers safety.live_eligibility);
      }

  -- `plan_all`; `none`: there is no AST.
  unfoldable pub plan_all :
      Option (List Parameter)
      → List PlannedEffect
      → List Scenario
      → Assessment
      → Option (List PlannedRun)
  unfolding plan_of
  plan_all parameters effects specs safety =
      option_map (λ ps. map (plan_of effects ps safety) (sort_on (λ s. s.scenario_spec_id) specs))
        parameters
