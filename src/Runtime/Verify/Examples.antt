-- ===== src/Runtime/Verify/Examples.antt =====
-- A run that leaves a required effect out.
use atlas_db_agent.Prelude.{
  String, List, true, refl, ◌↔◌, Has, collect, length, ◌+◌, none, some, [], ◌∷◌, ◌≡◌, any, contains,
}
use atlas_db_agent.Prelude.Texts.{last_with}
use atlas_db_agent.Prelude.Sorting.{sort}
use atlas_db_agent.Values.{Hashes, null, done}
use atlas_db_agent.Runtime.Kinds.{Texts}
use atlas_db_agent.Runtime.Verify.{
  must, dml_effect, succeeded, mismatch, ExpectedObservation, ExecutionRecord, VerificationPlan,
  match_observation, verify, result_of,
}
use atlas_db_agent.Runtime.Verify.Verdicts.{
  fits, is_violated, expected_status, verify-expected_status,
}
use atlas_db_agent.Runtime.Reconcile.{
  PlanBatch, Verified, Candidate, Report, plan_for, candidate_of, reconcile,
}
use atlas_db_agent.Runtime.Reconciled.{
  contradicts, verified, reconcile-partition, reconcile-candidates,
}

abbrev hashes : Hashes
hashes = record {
  canonical_digest = λ v. "digest";
  canonical_json = λ v. "{}";
  loads = λ s. null;
  sha256_hex = λ s. s;
  gherkin_digest = some;
  canonical_timestamp = some;
}

abbrev texts : Texts
texts = record { upper = λ s. s; strip = λ s. s }

abbrev expected : ExpectedObservation
expected = record {
  expectation_id = "X1";
  scenario_effect_ref = "E1";
  modality = must;
  observation_kind = dml_effect;
  target = none;
  expected_value = none;
}

abbrev plan : VerificationPlan
plan = record {
  dump = done;
  plan_id = "P";
  expected_observations = expected ∷ [];
  content_digest = "digest";
}

abbrev execution : ExecutionRecord
execution = record {
  dump = done;
  execution_id = "R";
  plan_ref = "P";
  plan_digest = "digest";
  execution_status = succeeded;
  output_parameters = [];
  sqlstate_seen = none;
  observed_effect_refs = "E2" ∷ [];
  row_change_effects = some "E3" ∷ none ∷ [];
  called_routines = [];
  content_digest = "digest";
}

verify-expected_status_example : (verify hashes texts plan execution).verification_status ≡ mismatch
unfolding fits expected_status is_violated match_observation any contains
verify-expected_status_example = verify-expected_status hashes texts plan execution

abbrev batch : PlanBatch
batch = record { dump = done; plans = plan ∷ []; content_digest = "digest" }

-- A record of another plan.
abbrev stray : ExecutionRecord
stray = record execution { execution_id = "S"; plan_ref = "Q" }

abbrev results : List Verified
results =
    (record { plan = plan; execution = execution; result = verify hashes texts plan execution })
    ∷ []

abbrev report : Report
report = record {
  counts_by_status = ("MISMATCH", 1) ∷ [];
  unmatched_execution_refs = "S" ∷ [];
  falsification_candidates =
      candidate_of
        (record { plan = plan; execution = execution; result = verify hashes texts plan execution })
      ∷ [];
}

reconciled : reconcile hashes texts batch (execution ∷ stray ∷ []) ≡ some (results, report)
unfolding reconcile verify last_with collect sort result_of match_observation contains
reconciled = refl

reconcile-partition_example :
    ((v : Verified)
      → Has v results ↔ (
          (p : VerificationPlan) × (e : ExecutionRecord) × Has e (execution ∷ stray ∷ [])
          × (plan_for e.plan_ref (plan ∷ []) ≡ some p)
          × (verified hashes texts p e ≡ v)))
    × ((id : String)
        → Has id report.unmatched_execution_refs ↔ (
            (e : ExecutionRecord) × Has e (execution ∷ stray ∷ [])
            × (plan_for e.plan_ref (plan ∷ []) ≡ none)
            × (e.execution_id ≡ id)))
    × (length results + length report.unmatched_execution_refs ≡ 2)
reconcile-partition_example =
    reconcile-partition hashes texts batch (execution ∷ stray ∷ []) results report reconciled

abbrev found : Candidate
found =
    candidate_of
      (record { plan = plan; execution = execution; result = verify hashes texts plan execution })

reconcile-candidates_example : Has found report.falsification_candidates ↔ (
    (p : VerificationPlan) × (e : ExecutionRecord) × Has e (execution ∷ stray ∷ [])
    × (plan_for e.plan_ref (plan ∷ []) ≡ some p)
    × (contradicts hashes texts p e ≡ true)
    × (candidate_of (record { plan = p; execution = e; result = verify hashes texts p e }) ≡ found))
reconcile-candidates_example =
    reconcile-candidates hashes texts batch (execution ∷ stray ∷ []) results report reconciled found
