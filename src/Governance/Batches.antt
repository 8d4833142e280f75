-- ===== src/Governance/Batches.antt =====
-- `admit_scenario_batch`, `admit_bdd_batch` and `admit_runtime_batch`: each admits the batch itself
-- and then its parts, in sessions of their own.
use atlas_db_agent.Prelude.{
  Bool, false, ◌&&◌, String, Option, none, some, List, [], ◌∷◌, str_eq, if◌then◌else◌,
}
use atlas_db_agent.Prelude.Sorting.{sort, first}
use atlas_db_agent.Values.{Hashes}
use atlas_db_agent.Governance.Rows.{
  ArtifactType, scenario_spec_batch, scenario_spec, classification_observation, effect_closure,
  resolution_vector, analysis_budget_report, bdd_compilation_batch, candidate_bdd,
  traceability_manifest, gherkin_artifact, runtime_verification_batch, runtime_execution_record,
  runtime_verification_result, is_scenario_spec, StoredArtifact, ArtifactRow,
}
use atlas_db_agent.Governance.Session.{Exec, pure, or_raise, ◌>>=◌, scenario_not_admitted}
use atlas_db_agent.Governance.Tables.{str_le}
use atlas_db_agent.Governance.Admission.{Model, Admission, admit_model, get_artifact}
use atlas_db_agent.Governance.Bindings.{ScenarioSpec}

pub record AdmissionResult : Type 0 where
  pub records : List StoredArtifact
  pub idempotent_artifact_ids : List String

-- A part of a batch: its model and its identifier.
pub record Part : Type 0 where
  pub model : Model
  pub ref : String

-- A part with an identity of its own.
pub record IdentifiedPart : Type 0 where
  pub model : Model
  pub ref : String
  pub behavior_id : String
  pub source_symbol_id : String
  pub symbol_lineage_id : String
  pub artifact_revision_id : String

-- A part that has the identity of a ScenarioSpec that was admitted before.
pub record DependentPart : Type 0 where
  pub model : Model
  pub ref : String
  pub scenario_spec_ref : String
  pub platform_governance_ref : Option String

pub record ScenarioBatch : Type 0 where
  pub model : Model
  pub procedure_identity_ref : String
  pub source_symbol_id : String
  pub symbol_lineage_id : String
  pub classification_observations : List Part
  pub effect_closures : List Part
  pub resolution_vectors : List Part
  pub budget_reports : List Part
  pub scenario_specs : List ScenarioSpec

pub record BddBatch : Type 0 where
  pub model : Model
  pub scenario_spec_batch_digest : String
  pub gherkin_artifacts : List IdentifiedPart
  pub traceability_manifests : List IdentifiedPart
  pub candidate_bdds : List DependentPart

pub record RuntimeBatch : Type 0 where
  pub model : Model
  pub plan_batch_digest : String
  pub execution_records : List Part
  pub verification_results : List DependentPart

-- The keyword arguments that the calls leave out.
abbrev pub plain_admission : ArtifactType → String → String → String → Option String → Admission
plain_admission kind ref created_at actor_ref parent = record {
  artifact_type = kind;
  artifact_ref = ref;
  created_at = created_at;
  actor_ref = actor_ref;
  behavior_id = none;
  source_symbol_id = none;
  symbol_lineage_id = none;
  artifact_revision_id = none;
  parent_artifact_id = parent;
  invalidates_machine_attestation = false;
  platform_governance_ref = none;
}

-- `records.append(record)`, and the identifier where it was known.
noted : StoredArtifact → Bool → AdmissionResult → AdmissionResult
noted r known rest = record {
  records = r ∷ rest.records;
  idempotent_artifact_ids =
      if known then r.artifact_id ∷ rest.idempotent_artifact_ids else rest.idempotent_artifact_ids;
}

-- `WHERE artifact_type = SCENARIO_SPEC AND artifact_ref = ?`
unfoldable pub scenario_rows : String → List ArtifactRow → List ArtifactRow
scenario_rows ref [] = []
scenario_rows ref (r ∷ rows) =
    let rest = scenario_rows ref rows in
    if is_scenario_spec r.artifact_type && str_eq r.artifact_ref ref then r ∷ rest else rest

-- `ORDER BY created_at DESC LIMIT 1`
abbrev newest_first : ArtifactRow → ArtifactRow → Bool
newest_first r s = str_le s.created_at r.created_at

unfoldable pub newest_scenario : String → List ArtifactRow → Option ArtifactRow
unfolding scenario_rows
newest_scenario ref rows = first (sort newest_first (scenario_rows ref rows))

module _ {A : Type 0} (admit_one : A → Exec (StoredArtifact × Bool)) where
  -- A loop over the parts; the results of its `rest` come behind.
  unfoldable pub admit_each : List A → Exec AdmissionResult → Exec AdmissionResult
  unfolding noted
  admit_each [] rest = rest
  admit_each (a ∷ parts) rest = do
    got ← admit_one a
    more ← admit_each parts rest
    pure (noted got.0 got.1 more)

abbrev no_more : Exec AdmissionResult
no_more = pure (record { records = []; idempotent_artifact_ids = [] })

module _ (h : Hashes) where
  unfoldable pub scenario_identity : String → Exec StoredArtifact
  scenario_identity ref db =
      (do
        row ← or_raise scenario_not_admitted (newest_scenario ref db.artifacts)
        got ← get_artifact h row.artifact_id
        pure got.0)
        db

  module _ (created_at actor_ref : String) where
    unfoldable pub admit_part : ArtifactType → String → Part → Exec (StoredArtifact × Bool)
    admit_part kind parent p =
        admit_model h p.model (plain_admission kind p.ref created_at actor_ref (some parent))

    unfoldable pub admit_identified :
        ArtifactType → String → IdentifiedPart → Exec (StoredArtifact × Bool)
    admit_identified kind parent p =
        admit_model h p.model
          (record (plain_admission kind p.ref created_at actor_ref (some parent)) {
            behavior_id = some p.behavior_id;
            source_symbol_id = some p.source_symbol_id;
            symbol_lineage_id = some p.symbol_lineage_id;
            artifact_revision_id = some p.artifact_revision_id;
          })

    unfoldable pub admit_dependent :
        ArtifactType → String → DependentPart → Exec (StoredArtifact × Bool)
    admit_dependent kind parent p = do
      identity ← scenario_identity p.scenario_spec_ref
      admit_model h p.model
          (record (plain_admission kind p.ref created_at actor_ref (some parent)) {
            behavior_id = identity.behavior_id;
            source_symbol_id = identity.source_symbol_id;
            symbol_lineage_id = identity.symbol_lineage_id;
            artifact_revision_id = identity.artifact_revision_id;
            platform_governance_ref = p.platform_governance_ref;
          })

    unfoldable pub admit_spec : String → ScenarioSpec → Exec (StoredArtifact × Bool)
    admit_spec parent s =
        admit_model h s.model
          (record (plain_admission scenario_spec s.scenario_spec_id created_at actor_ref
            (some parent)) {
              behavior_id = some s.behavior_id;
              source_symbol_id = some s.source_symbol_id;
              symbol_lineage_id = some s.symbol_lineage_id;
              artifact_revision_id = some s.artifact_revision_id;
              platform_governance_ref = s.platform_governance_ref;
            })

    unfoldable pub admit_scenario_batch : ScenarioBatch → Exec AdmissionResult
    unfolding noted
    admit_scenario_batch b = do
      got ←
          admit_model h b.model
            (record (plain_admission scenario_spec_batch b.procedure_identity_ref created_at
              actor_ref none) {
                source_symbol_id = some b.source_symbol_id;
                symbol_lineage_id = some b.symbol_lineage_id;
              })
      let parent = got.0.artifact_id
      rest ←
          admit_each (admit_part classification_observation parent) b.classification_observations (
            admit_each (admit_part effect_closure parent) b.effect_closures (
              admit_each (admit_part resolution_vector parent) b.resolution_vectors (
                admit_each (admit_part analysis_budget_report parent) b.budget_reports
                  (admit_each (admit_spec parent) b.scenario_specs no_more))))
      pure (noted got.0 got.1 rest)

    unfoldable pub admit_bdd_batch : BddBatch → Exec AdmissionResult
    unfolding noted
    admit_bdd_batch b = do
      got ← admit_model h b.model (
          plain_admission bdd_compilation_batch b.scenario_spec_batch_digest created_at actor_ref
            none)
      let parent = got.0.artifact_id
      rest ← admit_each (admit_identified gherkin_artifact parent) b.gherkin_artifacts (
          admit_each (admit_identified traceability_manifest parent) b.traceability_manifests
            (admit_each (admit_dependent candidate_bdd parent) b.candidate_bdds no_more))
      pure (noted got.0 got.1 rest)

    unfoldable pub admit_runtime_batch : RuntimeBatch → Exec AdmissionResult
    unfolding noted
    admit_runtime_batch b = do
      got ←
          admit_model h b.model (
            plain_admission runtime_verification_batch b.plan_batch_digest created_at actor_ref
              none)
      let parent = got.0.artifact_id
      rest ← admit_each (admit_part runtime_execution_record parent) b.execution_records (
          admit_each (admit_dependent runtime_verification_result parent) b.verification_results
            no_more)
      pure (noted got.0 got.1 rest)
