-- ===== src/Governance/Rows.antt =====
-- The evidence store's rows and enumerations (governance/models.py), as the tables of
-- governance_migrations/ hold them.
use Prim.Native.String.{◌++◌ as text_append}
use atlas_db_agent.Prelude.{ℕ, Bool, true, false, String, Option, List, [], ◌∷◌, padded12}
use atlas_db_agent.Values.{Value, number, text, object, dict, opt_text}

pub data ArtifactType : Type 0 where
  scenario_spec_batch scenario_spec classification_observation effect_closure : ArtifactType
  resolution_vector analysis_budget_report bdd_compilation_batch candidate_bdd : ArtifactType
  traceability_manifest gherkin_artifact runtime_verification_batch : ArtifactType
  runtime_execution_record runtime_verification_result platform_decision : ArtifactType
  certification_binding : ArtifactType

unfoldable pub type_value : ArtifactType → String
type_value scenario_spec_batch = "SCENARIO_SPEC_BATCH"
type_value scenario_spec = "SCENARIO_SPEC"
type_value classification_observation = "CLASSIFICATION_OBSERVATION"
type_value effect_closure = "EFFECT_CLOSURE"
type_value resolution_vector = "RESOLUTION_VECTOR"
type_value analysis_budget_report = "ANALYSIS_BUDGET_REPORT"
type_value bdd_compilation_batch = "BDD_COMPILATION_BATCH"
type_value candidate_bdd = "CANDIDATE_BDD"
type_value traceability_manifest = "TRACEABILITY_MANIFEST"
type_value gherkin_artifact = "GHERKIN_ARTIFACT"
type_value runtime_verification_batch = "RUNTIME_VERIFICATION_BATCH"
type_value runtime_execution_record = "RUNTIME_EXECUTION_RECORD"
type_value runtime_verification_result = "RUNTIME_VERIFICATION_RESULT"
type_value platform_decision = "PLATFORM_DECISION"
type_value certification_binding = "CERTIFICATION_BINDING"

-- `artifact_type == SCENARIO_SPEC`
abbrev pub is_scenario_spec : ArtifactType → Bool
is_scenario_spec scenario_spec = true
is_scenario_spec _ = false

pub data ComparisonStatus : Type 0 where
  match conflict no_baseline inconclusive : ComparisonStatus

unfoldable pub status_value : ComparisonStatus → String
status_value match = "MATCH"
status_value conflict = "CONFLICT"
status_value no_baseline = "NO_BASELINE"
status_value inconclusive = "INCONCLUSIVE"

pub data EventType : Type 0 where
  artifact_cached reference_baseline_cached baseline_retired baseline_compared : EventType
  review_amendment_cached external_platform_decision_cached : EventType
  external_certification_cached artifact_admitted baseline_registered : EventType
  artifact_amended platform_decision_bound certification_bound : EventType

unfoldable pub event_type_value : EventType → String
event_type_value artifact_cached = "ARTIFACT_CACHED"
event_type_value reference_baseline_cached = "REFERENCE_BASELINE_CACHED"
event_type_value baseline_retired = "BASELINE_RETIRED"
event_type_value baseline_compared = "BASELINE_COMPARED"
event_type_value review_amendment_cached = "REVIEW_AMENDMENT_CACHED"
event_type_value external_platform_decision_cached = "EXTERNAL_PLATFORM_DECISION_CACHED"
event_type_value external_certification_cached = "EXTERNAL_CERTIFICATION_CACHED"
event_type_value artifact_admitted = "ARTIFACT_ADMITTED"
event_type_value baseline_registered = "BASELINE_REGISTERED"
event_type_value artifact_amended = "ARTIFACT_AMENDED"
event_type_value platform_decision_bound = "PLATFORM_DECISION_BOUND"
event_type_value certification_bound = "CERTIFICATION_BOUND"

-- `StoredArtifactRecord`; its `authority_scope` has one value, which is left out.
pub record StoredArtifact : Type 0 where
  pub artifact_id : String
  pub artifact_type : ArtifactType
  pub artifact_ref : String
  pub content_digest : String
  pub payload_digest : String
  pub behavior_id : Option String
  pub source_symbol_id : Option String
  pub symbol_lineage_id : Option String
  pub artifact_revision_id : Option String
  pub parent_artifact_id : Option String
  pub invalidates_machine_attestation : Bool
  pub platform_governance_ref : Option String
  pub created_at : String

-- A row of `governance_artifacts`: the record's columns and `payload_json`.
pub record ArtifactRow : Type 0 where
  pub columns : StoredArtifact
  pub open columns use *
  pub payload_json : String

-- A row of `governance_baselines`.
pub record Baseline : Type 0 where
  pub registration_id : String
  pub artifact_id : String
  pub behavior_id : String
  pub authority_ref : String
  pub effective_from : String
  pub effective_to : Option String
  pub content_digest : String

-- A row of `governance_comparisons`, with the model's fields that the table leaves out.
pub record Comparison : Type 0 where
  pub comparison_id : String
  pub candidate_artifact_id : String
  pub baseline_artifact_id : Option String
  pub behavior_id : String
  pub source_symbol_id : String
  pub symbol_lineage_id : String
  pub artifact_revision_id : String
  pub status : ComparisonStatus
  pub candidate_signature_digest : String
  pub baseline_signature_digest : Option String
  pub classification_candidate : Option String
  pub evidence_refs : Value
  pub compared_at : String
  pub content_digest : String

-- A row of `governance_amendments`.
pub record Amendment : Type 0 where
  pub amendment_id : String
  pub original_artifact_id : String
  pub amended_artifact_id : String
  pub editor_ref : String
  pub reason : String
  pub amended_at : String
  pub content_digest : String

-- `PlatformDecisionEnvelope`, which is a row of its table too.
pub record PlatformDecision : Type 0 where
  pub binding_id : String
  pub artifact_id : String
  pub artifact_digest : String
  pub platform_decision_ref : String
  pub decision_type : String
  pub authority_ref : String
  pub effective_at : String
  pub evidence_refs : List String
  pub content_digest : String

-- `CertificationEnvelope`
pub record Certification : Type 0 where
  pub certification_binding_id : String
  pub artifact_id : String
  pub artifact_digest : String
  pub certification_ref : String
  pub certification_type : String
  pub authority_ref : String
  pub valid_from : String
  pub valid_to : Option String
  pub evidence_refs : List String
  pub content_digest : String

-- The fields of `GovernanceAuditEvent` that its digest is taken over.
pub record EventPayload : Type 0 where
  pub event_id : String
  pub sequence : ℕ
  pub event_type : EventType
  pub artifact_id : String
  pub actor_ref : String
  pub event_at : String
  pub payload_digest : String
  pub previous_event_digest : Option String

pub record AuditEvent : Type 0 where
  pub payload : EventPayload
  pub open payload use *
  pub content_digest : String

-- The dictionary that is hashed.
unfoldable pub event_value : EventPayload → Value
event_value p = object (
    dict (
      ("event_id", text p.event_id)
      ∷ ("sequence", number p.sequence)
      ∷ ("event_type", text (event_type_value p.event_type))
      ∷ ("artifact_id", text p.artifact_id)
      ∷ ("actor_ref", text p.actor_ref)
      ∷ ("event_at", text p.event_at)
      ∷ ("payload_digest", text p.payload_digest)
      ∷ ("previous_event_digest", opt_text p.previous_event_digest)
      ∷ []))

-- `f"audit-{sequence:012d}"`
unfoldable pub event_id_of : ℕ → String
event_id_of n = text_append "audit-" (padded12 n)

-- The tables of the store, each in the order of its insertions.
pub record Db : Type 0 where
  pub artifacts : List ArtifactRow
  pub baselines : List Baseline
  pub comparisons : List Comparison
  pub amendments : List Amendment
  pub platform_decisions : List PlatformDecision
  pub certifications : List Certification
  pub audit_events : List AuditEvent

abbrev pub empty_db : Db
empty_db = record {
  artifacts = [];
  baselines = [];
  comparisons = [];
  amendments = [];
  platform_decisions = [];
  certifications = [];
  audit_events = [];
}
