-- ===== src/Governance/Admission.antt =====
-- `validate_content_digest`, `_admit_model` and `get_artifact`.
use atlas_db_agent.Prelude.{
  Bool, true, false, ◌&&◌, String, Option, none, some, [], ◌∷◌, str_eq, if◌then◌else◌,
}
use atlas_db_agent.Values.{Hashes, Value, text, object, Fields, with_field}
use atlas_db_agent.Governance.Rows.{
  ArtifactType, type_value, StoredArtifact, ArtifactRow, artifact_cached,
}
use atlas_db_agent.Governance.Session.{
  Exec, pure, raise, or_raise, require, session, ◌>>=◌, ◌>>◌, invalid_content_digest,
  identity_collision, unknown_artifact, payload_mismatch, validation_error, gherkin_error,
}
use atlas_db_agent.Governance.Audit.{append_event}
use atlas_db_agent.Governance.Tables.{short_id, find_artifact, insert_artifact}

-- A pydantic model: its dump without `content_digest`, that field where it is a text, and the
-- text of a `GherkinArtifact`.
pub record Model : Type 0 where
  pub dump : Fields
  pub content_digest : Option String
  pub gherkin_text : Option String

-- The whole dump.
abbrev pub full_dump : Fields → Option String → Value
full_dump dump none = object dump
full_dump dump (some d) = object (with_field dump "content_digest" (text d))

-- The keyword arguments of `_admit_model`.
pub record Admission : Type 0 where
  pub artifact_type : ArtifactType
  pub artifact_ref : String
  pub created_at : String
  pub actor_ref : String
  pub behavior_id : Option String
  pub source_symbol_id : Option String
  pub symbol_lineage_id : Option String
  pub artifact_revision_id : Option String
  pub parent_artifact_id : Option String
  pub invalidates_machine_attestation : Bool
  pub platform_governance_ref : Option String

module _ (h : Hashes) where
  unfoldable pub model_value : Model → Value
  model_value m = full_dump m.dump m.content_digest

  expected_digest : Fields → Option String → Exec String
  expected_digest dump none = pure (h.canonical_digest (object dump))
  expected_digest dump (some t) = or_raise gherkin_error (h.gherkin_digest t)

  digest_checked : Model → Option String → Exec String
  digest_checked m none = pure (h.canonical_digest (model_value m))
  digest_checked m (some d) = do
    expected ← expected_digest m.dump m.gherkin_text
    require (str_eq expected d) invalid_content_digest
    pure d

  unfoldable pub validate_content_digest : Model → Exec String
  unfolding digest_checked expected_digest
  validate_content_digest m = digest_checked m m.content_digest

  unfoldable pub artifact_id_of : ArtifactType → String → String → String
  artifact_id_of kind artifact_ref content_digest =
      short_id h "gov-artifact-" (type_value kind ∷ artifact_ref ∷ content_digest ∷ [])

  -- The columns of the row; `created_at` as it was given.
  unfoldable pub columns_of : Model → Admission → String → StoredArtifact
  columns_of m a content_digest = record {
    artifact_id = artifact_id_of a.artifact_type a.artifact_ref content_digest;
    artifact_type = a.artifact_type;
    artifact_ref = a.artifact_ref;
    content_digest = content_digest;
    payload_digest = h.canonical_digest (model_value m);
    behavior_id = a.behavior_id;
    source_symbol_id = a.source_symbol_id;
    symbol_lineage_id = a.symbol_lineage_id;
    artifact_revision_id = a.artifact_revision_id;
    parent_artifact_id = a.parent_artifact_id;
    invalidates_machine_attestation = a.invalidates_machine_attestation;
    platform_governance_ref = a.platform_governance_ref;
    created_at = a.created_at;
  }

  -- The session of `_admit_model`, on the row that has the new identifier already, if any.
  unfoldable pub admit_row : ArtifactRow → String → Option ArtifactRow → Exec Bool
  admit_row row actor_ref (some existing) =
      if str_eq existing.content_digest row.content_digest
        && str_eq existing.payload_digest row.payload_digest
      then pure true
      else raise identity_collision
  admit_row row actor_ref none = do
    insert_artifact row
    append_event h artifact_cached row.artifact_id actor_ref row.created_at row.payload_digest
    pure false

  unfoldable pub admit_session : ArtifactRow → String → Exec Bool
  admit_session row actor_ref db =
      admit_row row actor_ref (find_artifact row.artifact_id db.artifacts) db

  -- The record that is returned holds the canonical timestamp, the row the one that was given.
  unfoldable pub admit_model : Model → Admission → Exec (StoredArtifact × Bool)
  admit_model m a = do
    content_digest ← validate_content_digest m
    let columns = columns_of m a content_digest
    created_at ← or_raise validation_error (h.canonical_timestamp a.created_at)
    let row : ArtifactRow = record {
      columns = columns;
      payload_json = h.canonical_json (model_value m);
    }
    known ← session (admit_session row a.actor_ref)
    pure (record columns { created_at = created_at }, known)

  -- The record and the payload of a row.
  read_row : ArtifactRow → Exec (StoredArtifact × Value)
  read_row row = do
    created_at ← or_raise validation_error (h.canonical_timestamp row.created_at)
    require (str_eq (h.canonical_digest (h.loads row.payload_json)) row.payload_digest)
        payload_mismatch
    pure (record row.columns { created_at = created_at }, h.loads row.payload_json)

  unfoldable pub get_artifact : String → Exec (StoredArtifact × Value)
  unfolding read_row
  get_artifact artifact_id db =
      (do row ← or_raise unknown_artifact (find_artifact artifact_id db.artifacts); read_row row) db
