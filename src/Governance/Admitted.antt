-- ===== src/Governance/Admitted.antt =====
-- What `_admit_model` does with a new artifact.
use atlas_db_agent.Prelude.{true, false, String, none, some, [], ◌∷◌, ◌++◌, ◌≡◌, refl, eq_iff, any}
use atlas_db_agent.Values.{Hashes}
use atlas_db_agent.Governance.Rows.{ArtifactRow, AuditEvent, artifact_cached, Db}
use atlas_db_agent.Governance.Session.{ok, ◌>>=◌}
use atlas_db_agent.Governance.Audit.{append_event}
use atlas_db_agent.Governance.Audit.Chain.{Chained, append_event-Chained}
use atlas_db_agent.Governance.Tables.{find_artifact, same_identity, parent_known, insert_artifact}
use atlas_db_agent.Governance.Found.{find_artifact-concat, parent_known-concat}
use atlas_db_agent.Governance.Admission.{
  Model, Admission, model_value, validate_content_digest, artifact_id_of, columns_of, admit_row,
  admit_session, admit_model, get_artifact,
}
use atlas_db_agent.Governance.Preserves.Laws.{AreLawful}
use atlas_db_agent.Governance.Trace.Readable.{get_artifact-IsReadable}

module _ (h : Hashes) (m : Model) (a : Admission) (d : String) (db : Db) where
  -- The row that an admission of `m` with the digest `d` would insert.
  abbrev pub row_of : ArtifactRow
  row_of = record {
    columns = columns_of h m a d;
    payload_json = h.canonical_json (model_value h m);
  }

  -- The model's digest is `d`, and its timestamp is canonical.
  pub record IsAdmissible : Type 0 where
    pub valid : validate_content_digest h m db ≡ (ok d, db)
    pub dated : h.canonical_timestamp a.created_at ≡ some a.created_at

  -- Nothing in the table stands in the way of the row.
  pub record IsFresh : Type 0 where
    pub new_id :
        find_artifact (artifact_id_of h a.artifact_type a.artifact_ref d) db.artifacts ≡ none
    pub new_identity : any (same_identity row_of) db.artifacts ≡ false
    pub parent_there : parent_known a.parent_artifact_id db.artifacts ≡ true

  -- The state behind the insert, and with one more event.
  abbrev stored : Db
  stored = record db { artifacts = db.artifacts ++ row_of ∷ [] }

  abbrev pub logged : AuditEvent → Db
  logged e = record db {
    artifacts = db.artifacts ++ row_of ∷ [];
    audit_events = db.audit_events ++ e ∷ [];
  }

  insert_artifact_fresh : IsFresh → insert_artifact row_of db ≡ (ok tt, stored)
  unfolding insert_artifact columns_of ◌>>=◌
  insert_artifact_fresh fresh = rw (
    fresh.new_id,
    fresh.new_identity,
    parent_known-concat a.parent_artifact_id db.artifacts row_of fresh.parent_there,
  )

  admit_session_fresh :
      IsFresh
      → (e : AuditEvent)
      → append_event h artifact_cached row_of.artifact_id a.actor_ref row_of.created_at
          row_of.payload_digest stored
        ≡ (ok e, logged e)
      → admit_session h row_of a.actor_ref db ≡ (ok false, logged e)
  unfolding admit_session admit_row columns_of ◌>>=◌
  admit_session_fresh fresh e appended =
      rw (fresh.new_id) (rw (insert_artifact_fresh fresh) (rw appended refl))

  admit_model_fresh :
      IsAdmissible
      → IsFresh
      → Chained h 1 none db.audit_events
      → (e : AuditEvent) × (admit_model h m a db ≡ (ok (columns_of h m a d, false), logged e))
  unfolding admit_model columns_of ◌>>=◌
  admit_model_fresh can fresh c =
      let (e, eq, _) =
        append_event-Chained h stored artifact_cached row_of.artifact_id a.actor_ref a.created_at
          row_of.payload_digest c can.dated in
      (e, rw can.valid (rw can.dated (rw (admit_session_fresh fresh e eq) refl)))

  -- With lawful hashes, a chained table of events, a model whose digest is valid, a canonical
  -- `created_at`, and no row that has the identifier or the identity, nor a missing parent, the
  -- artifact is admitted with one row and one event, and `get_artifact` then returns the record
  -- that the admission returned, with the payload that was written.
  pub admit_model-get_artifact :
      AreLawful h
      → IsAdmissible
      → IsFresh
      → Chained h 1 none db.audit_events
      → (e : AuditEvent) × (admit_model h m a db ≡ (ok (columns_of h m a d, false), logged e))
        × (get_artifact h (columns_of h m a d).artifact_id (logged e)
            ≡ (ok (columns_of h m a d, h.loads (h.canonical_json (model_value h m))), logged e))
  unfolding columns_of
  admit_model-get_artifact law can fresh c =
      let (e, admitted) = admit_model_fresh can fresh c in
      (
        e,
        admitted,
        get_artifact-IsReadable h _ (logged e) row_of
            (find_artifact-concat _ db.artifacts row_of fresh.new_id ((eq_iff _ _).1 refl))
            (record { intact = law.digest-loads (model_value h m); dated = can.dated }),
      )
