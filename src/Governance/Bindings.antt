-- ===== src/Governance/Bindings.antt =====
-- `amend_scenario_spec`, `bind_platform_decision` and `bind_certification`.
use atlas_db_agent.Prelude.{Bool, true, false, String, Option, none, some, [], ◌∷◌, str_eq, opt_eq}
use atlas_db_agent.Values.{Hashes, flag, text, texts, object, dict, opt_text}
use atlas_db_agent.Governance.Rows.{
  is_scenario_spec, scenario_spec, StoredArtifact, Amendment, PlatformDecision, Certification,
  review_amendment_cached, external_platform_decision_cached, external_certification_cached,
}
use atlas_db_agent.Governance.Session.{
  Exec, pure, or_raise, require, session, ◌>>=◌, ◌>>◌, not_a_scenario_spec, changes_behavior_id,
  changes_source_symbol_id, changes_symbol_lineage_id, artifact_digest_mismatch, validation_error,
}
use atlas_db_agent.Governance.Audit.{append_event}
use atlas_db_agent.Governance.Tables.{
  short_id, decision_digest, certification_digest, ensure_idempotent_binding,
  insert_platform_decision, insert_certification, insert_amendment,
}
use atlas_db_agent.Governance.Admission.{Model, validate_content_digest, admit_model, get_artifact}

-- `ScenarioSpec`, as far as the store reads it.
pub record ScenarioSpec : Type 0 where
  pub model : Model
  pub scenario_spec_id : String
  pub behavior_id : String
  pub source_symbol_id : String
  pub symbol_lineage_id : String
  pub artifact_revision_id : String
  pub platform_governance_ref : Option String

-- The dumps of the two envelopes, for `validate_content_digest`.
unfoldable pub decision_model : PlatformDecision → Model
decision_model e = record {
  dump = dict (
      ("binding_id", text e.binding_id)
      ∷ ("artifact_id", text e.artifact_id)
      ∷ ("artifact_digest", text e.artifact_digest)
      ∷ ("platform_decision_ref", text e.platform_decision_ref)
      ∷ ("decision_type", text e.decision_type)
      ∷ ("authority_ref", text e.authority_ref)
      ∷ ("effective_at", text e.effective_at)
      ∷ ("evidence_refs", texts e.evidence_refs)
      ∷ []);
  content_digest = some e.content_digest;
  gherkin_text = none;
}

unfoldable pub certification_model : Certification → Model
certification_model e = record {
  dump = dict (
      ("certification_binding_id", text e.certification_binding_id)
      ∷ ("artifact_id", text e.artifact_id)
      ∷ ("artifact_digest", text e.artifact_digest)
      ∷ ("certification_ref", text e.certification_ref)
      ∷ ("certification_type", text e.certification_type)
      ∷ ("authority_ref", text e.authority_ref)
      ∷ ("valid_from", text e.valid_from)
      ∷ ("valid_to", opt_text e.valid_to)
      ∷ ("evidence_refs", texts e.evidence_refs)
      ∷ []);
  content_digest = some e.content_digest;
  gherkin_text = none;
}

module _ (h : Hashes) where
  -- The digest is taken over `amended_at` as it was given.
  unfoldable pub amendment_of :
      String → String → ScenarioSpec → String → String → String → String → Amendment
  amendment_of original_id amended_id spec editor_ref reason amended_at stored_at =
      let id = short_id h "amendment-" (original_id ∷ amended_id ∷ editor_ref ∷ amended_at ∷ []) in
      record {
        amendment_id = id;
        original_artifact_id = original_id;
        amended_artifact_id = amended_id;
        editor_ref = editor_ref;
        reason = reason;
        amended_at = stored_at;
        content_digest = h.canonical_digest (
            object (
              dict (
                ("amendment_id", text id)
                ∷ ("original_artifact_id", text original_id)
                ∷ ("amended_artifact_id", text amended_id)
                ∷ ("behavior_id", text spec.behavior_id)
                ∷ ("source_symbol_id", text spec.source_symbol_id)
                ∷ ("symbol_lineage_id", text spec.symbol_lineage_id)
                ∷ ("artifact_revision_id", text spec.artifact_revision_id)
                ∷ ("editor_ref", text editor_ref)
                ∷ ("reason", text reason)
                ∷ ("invalidates_machine_attestation", flag true)
                ∷ ("amended_at", text amended_at)
                ∷ [])));
      }

  unfoldable pub amendment_session : Amendment → String → Exec (Unit {0})
  amendment_session a editor_ref = do
    insert_amendment a
    append_event h review_amendment_cached a.amended_artifact_id editor_ref a.amended_at
        a.content_digest
    pure tt

  -- Two sessions: the amended specification is admitted before the amendment is written.
  unfoldable pub amend_scenario_spec :
      String → ScenarioSpec → String → String → String → Exec (StoredArtifact × Amendment)
  amend_scenario_spec original_id spec editor_ref reason amended_at = do
    got ← get_artifact h original_id
    require (is_scenario_spec got.0.artifact_type) not_a_scenario_spec
    require (opt_eq (some spec.behavior_id) got.0.behavior_id) changes_behavior_id
    require (opt_eq (some spec.source_symbol_id) got.0.source_symbol_id) changes_source_symbol_id
    require (opt_eq (some spec.symbol_lineage_id) got.0.symbol_lineage_id) changes_symbol_lineage_id
    admitted ← admit_model h spec.model (record {
      artifact_type = scenario_spec;
      artifact_ref = spec.scenario_spec_id;
      created_at = amended_at;
      actor_ref = editor_ref;
      behavior_id = some spec.behavior_id;
      source_symbol_id = some spec.source_symbol_id;
      symbol_lineage_id = some spec.symbol_lineage_id;
      artifact_revision_id = some spec.artifact_revision_id;
      parent_artifact_id = some original_id;
      invalidates_machine_attestation = true;
      platform_governance_ref = spec.platform_governance_ref;
    })
    stored_at ← or_raise validation_error (h.canonical_timestamp amended_at)
    let a =
        amendment_of original_id admitted.0.artifact_id spec editor_ref reason amended_at stored_at
    session (amendment_session a editor_ref)
    pure (admitted.0, a)

  unfoldable pub store_decision : PlatformDecision → Bool → Exec (Unit {0})
  store_decision e true = pure tt
  store_decision e false = do
    insert_platform_decision e
    append_event h external_platform_decision_cached e.artifact_id e.authority_ref e.effective_at
        e.content_digest
    pure tt

  unfoldable pub decision_session : PlatformDecision → Exec (Unit {0})
  decision_session e db =
      (do
        known ←
            ensure_idempotent_binding (decision_digest e.binding_id db.platform_decisions)
              e.content_digest
        store_decision e known)
        db

  unfoldable pub bind_platform_decision : PlatformDecision → Exec (Unit {0})
  bind_platform_decision e = do
    validate_content_digest h (decision_model e)
    got ← get_artifact h e.artifact_id
    require (str_eq got.0.content_digest e.artifact_digest) artifact_digest_mismatch
    session (decision_session e)

  unfoldable pub store_certification : Certification → Bool → Exec (Unit {0})
  store_certification e true = pure tt
  store_certification e false = do
    insert_certification e
    append_event h external_certification_cached e.artifact_id e.authority_ref e.valid_from
        e.content_digest
    pure tt

  unfoldable pub certification_session : Certification → Exec (Unit {0})
  certification_session e db =
      (do
        known ←
            ensure_idempotent_binding
              (certification_digest e.certification_binding_id db.certifications) e.content_digest
        store_certification e known)
        db

  unfoldable pub bind_certification : Certification → Exec (Unit {0})
  bind_certification e = do
    validate_content_digest h (certification_model e)
    got ← get_artifact h e.artifact_id
    require (str_eq got.0.content_digest e.artifact_digest) artifact_digest_mismatch
    session (certification_session e)
