-- ===== src/Runtime/Examples.antt =====
-- A procedure that the executor may run, and one that it may not keep.
use atlas_db_agent.Prelude.{
  Has, inl, ◌++◌, true, false, ◌&&◌, ◌||◌, none, some, [], ◌∷◌, ◌≡◌, refl, ◌↔◌, str_eq, any, all,
  collect, contains, nonempty, if◌then◌else◌,
}
use atlas_db_agent.Prelude.Sorting.{sort}
use atlas_db_agent.Values.{Hashes, null, done}
use atlas_db_agent.Runtime.Kinds.{
  dml, call, out_parameter_assignment, escaping_effect, unresolved_effect_boundary, parses_complete,
  db2_sandbox_allowed, executor_owned, rollback_safe, ready_db2_sandbox, Effect, ProcedureAst,
  SemanticResult, Texts,
}
use atlas_db_agent.Runtime.Safety.{
  is_commit, is_unresolved_call, is_unresolved_site, is_complete, commit_on_return_of,
  assessment_of,
}
use atlas_db_agent.Runtime.Executor.{
  passed, SandboxConfig, Invocation, Plan, is_missing, check_live,
}
use atlas_db_agent.Runtime.Assessed.{
  IsContained, assessment_of-IsContained, reason_codes-IsContained, executor_owned-rollback_safe,
}
use atlas_db_agent.Runtime.Contained.{check_live-assessment_of, check_live-IsContained}
use atlas_db_agent.Prelude.Texts.{last_with}
use atlas_db_agent.Runtime.Verify.Records.{must}
use atlas_db_agent.Runtime.Planning.{
  Literals, PlannedEffect, ScenarioEffect, Scenario, expectation_of, effect_for, observed_effects,
  expectations, plan_of,
}
use atlas_db_agent.Runtime.Planned.{expectations-Has, plan_of-ready}

abbrev hashes : Hashes
hashes = record {
  canonical_digest = λ v. "digest";
  canonical_json = λ v. "{}";
  loads = λ s. null;
  sha256_hex = λ s. s;
  gherkin_digest = some;
  canonical_timestamp = some;
}

abbrev texts : Texts
texts = record { upper = λ s. if str_eq s "no" then "NO" else s; strip = λ s. s }

abbrev update : Effect
update = record {
  effect_id = "E1";
  effect_kind = dml;
  observability = escaping_effect;
  source_node_ref = "N1";
}

abbrev unknown_call : Effect
unknown_call = record {
  effect_id = "E2";
  effect_kind = call;
  observability = unresolved_effect_boundary;
  source_node_ref = "N2";
}

abbrev ast : ProcedureAst
ast = record { commit_on_return = some "no" }

abbrev quiet : SemanticResult
quiet = record { effects = update ∷ []; dynamic_sql_sites = [] }

abbrev calling : SemanticResult
calling = record { effects = update ∷ unknown_call ∷ []; dynamic_sql_sites = [] }

abbrev plan : Plan
plan = record { plan_status = ready_db2_sandbox; input_requirements = "no" ∷ [] }

abbrev invocation : Invocation
invocation = record { dump = done; parameter_names = "NO" ∷ []; content_digest = "digest" }

abbrev config : SandboxConfig
config = record {
  sandbox_attestation = "sandbox";
  manual_approval_ref = none;
  rollback_after_call = false;
  execute_live = true;
}

assessment_of-IsContained_example :
    ((assessment_of hashes texts parses_complete ast calling "P").live_eligibility
      ≡ db2_sandbox_allowed)
    ↔ IsContained hashes texts parses_complete ast calling
assessment_of-IsContained_example =
    assessment_of-IsContained hashes texts parses_complete ast calling "P"

reason_codes-IsContained_example :
    (nonempty (assessment_of hashes texts parses_complete ast quiet "P").reason_codes ≡ false)
    ↔ IsContained hashes texts parses_complete ast quiet
reason_codes-IsContained_example =
    reason_codes-IsContained hashes texts parses_complete ast quiet "P"

executor_owned-rollback_safe_example :
    ((assessment_of hashes texts parses_complete ast quiet "P").transaction_ownership
      ≡ executor_owned)
    ↔ ((assessment_of hashes texts parses_complete ast quiet "P").rollback_containment
        ≡ rollback_safe)
executor_owned-rollback_safe_example =
    executor_owned-rollback_safe hashes texts parses_complete ast quiet "P"

quiet-passed :
    check_live hashes texts plan invocation config
      (some (assessment_of hashes texts parses_complete ast quiet "P"))
      none
    ≡ passed
unfolding check_live assessment_of sort collect all contains
quiet-passed = refl

check_live-assessment_of_example :
    (is_complete parses_complete ≡ true)
    × (any is_commit quiet.effects ≡ false)
    × (str_eq (commit_on_return_of hashes texts ast) "YES" ≡ false)
    × (((any is_unresolved_call quiet.effects || any is_unresolved_site quiet.dynamic_sql_sites)
          && is_missing config.manual_approval_ref)
        ≡ false)
check_live-assessment_of_example =
    check_live-assessment_of hashes texts plan invocation config none parses_complete ast quiet "P"
      quiet-passed

check_live-IsContained_example :
    IsContained hashes texts parses_complete ast quiet
    × (str_eq (commit_on_return_of hashes texts ast) "NO" ≡ true)
check_live-IsContained_example =
    check_live-IsContained hashes texts plan invocation config none parses_complete ast quiet "P"
      quiet-passed refl

abbrev literals : Literals
literals = record {
  upper = λ s. s;
  strip = λ s. s;
  quoted = λ s. none;
  integer = some;
  decimal = λ s. none;
}

abbrev assigned : PlannedEffect
assigned = record {
  effect_id = "E1";
  effect_kind = out_parameter_assignment;
  target = some "N";
  value_expression = some "1";
  evidence_refs = [];
}

abbrev scenario : Scenario
scenario = record {
  scenario_spec_id = "S1";
  expected_effects =
      (record { effect_ref = "E1"; modality = must })
      ∷ (record { effect_ref = "E9"; modality = must })
      ∷ [];
  alternative_or_conditional_effects = [];
}

expectations-Has_example :
    (s : ScenarioEffect) × (e : PlannedEffect) × Has s (scenario.expected_effects ++ [])
    × (effect_for hashes literals (assigned ∷ []) s.effect_ref ≡ some e)
    × (expectation_of hashes literals s e
        ≡ expectation_of hashes literals (record { effect_ref = "E1"; modality = must }) assigned)
unfolding expectations observed_effects sort last_with
expectations-Has_example =
    (expectations-Has hashes literals (assigned ∷ []) scenario
        (expectation_of hashes literals (record { effect_ref = "E1"; modality = must }) assigned)).0
      (inl refl)

plan_of-ready_example :
    ((plan_of hashes literals
        (assigned ∷ [])
        []
        (assessment_of hashes texts parses_complete ast quiet "P")
        scenario).plan_status
      ≡ ready_db2_sandbox)
    ↔ ((nonempty (expectations hashes literals (assigned ∷ []) scenario) ≡ true)
        × IsContained hashes texts parses_complete ast quiet)
plan_of-ready_example =
    plan_of-ready hashes literals texts parses_complete ast quiet "P" (assigned ∷ []) [] scenario
