-- ===== src/Governance/Examples.antt =====
-- Concrete calls of the evidence store.
use atlas_db_agent.Prelude.{
  true, false, any, none, some, String, List, [], ◌∷◌, ◌≡◌, refl, str_eq, if◌then◌else◌,
}
use atlas_db_agent.Values.{Hashes, Value, text, object, Fields, done, field, dict}
use atlas_db_agent.Governance.Rows.{
  scenario_spec, type_value, artifact_cached, event_value, AuditEvent, ArtifactRow, Db, empty_db,
}
use atlas_db_agent.Governance.Session.{ok, ◌>>=◌}
use atlas_db_agent.Governance.Audit.{append_event, audit_chain_valid}
use atlas_db_agent.Governance.Audit.Chain.{append_event-Chained, Chained}
use atlas_db_agent.Governance.Audit.Stamped.{append_event-audit_chain_valid}
use atlas_db_agent.Governance.Tables.{short_id, find_artifact, insert_artifact}
use atlas_db_agent.Governance.Admission.{
  Model, Admission, model_value, validate_content_digest, artifact_id_of, columns_of, admit_row,
  admit_session, admit_model, get_artifact,
}
use atlas_db_agent.Governance.Batches.{RuntimeBatch}
use atlas_db_agent.Governance.Preserves.Laws.{AreLawful}
use atlas_db_agent.Governance.Readmitted.{admit_model-admit_model}
use atlas_db_agent.Governance.Admitted.{
  IsAdmissible, IsFresh, row_of, logged, admit_model-get_artifact,
}
use atlas_db_agent.Governance.Trace.{Call, admit, register, compare, admit_runtimes, after_all}
use atlas_db_agent.Governance.Trace.Audited.{audit_chain_valid-after_all}
use atlas_db_agent.Governance.Trace.Readable.{get_artifact-after_all}
use atlas_db_agent.Governance.Trace.AppendOnly.{Extends, after_all-Extends}

abbrev noon : String
noon = "2026-07-29T12:00:00.000000Z"

-- Digests that show the timestamp of an event, so that a wrong one is seen.
abbrev shown_field : Fields → String
shown_field done = ""
shown_field (field k (text v) fs) = if str_eq k "event_at" then v else shown_field fs
shown_field (field k _ fs) = shown_field fs

abbrev shown : Value → String
shown (object fs) = shown_field fs
shown _ = ""

abbrev hashes : Hashes
hashes = record {
  canonical_digest = shown;
  canonical_json = shown;
  loads = λ s. object (field "event_at" (text s) done);
  sha256_hex = λ s. s;
  gherkin_digest = some;
  canonical_timestamp = λ t. some noon;
}

hashes-AreLawful : AreLawful hashes
hashes-AreLawful = record { digest-loads = λ v. refl; timestamp_idem = λ t u e. e }

abbrev spec_model : Model
spec_model = record {
  dump = dict (
      ("scenario_spec_id", text "S1")
      ∷ ("event_at", text "then")
      ∷ ("behavior_id", text "B1")
      ∷ []);
  content_digest = some "then";
  gherkin_text = none;
}

abbrev spec_admission : Admission
spec_admission = record {
  artifact_type = scenario_spec;
  artifact_ref = "S1";
  created_at = noon;
  actor_ref = "analyst";
  behavior_id = some "B1";
  source_symbol_id = some "SYM";
  symbol_lineage_id = some "LIN";
  artifact_revision_id = some "REV";
  parent_artifact_id = none;
  invalidates_machine_attestation = false;
  platform_governance_ref = none;
}

abbrev spec_row : ArtifactRow
spec_row = row_of hashes spec_model spec_admission "then" empty_db

abbrev spec_id : String
spec_id = artifact_id_of hashes scenario_spec "S1" "then"

-- A batch of one runtime record, and of a result whose scenario is not there.
abbrev plain_model : Model
plain_model = record { dump = done; content_digest = none; gherkin_text = none }

abbrev batch : RuntimeBatch
batch = record {
  model = plain_model;
  plan_batch_digest = "plan";
  execution_records = record { model = plain_model; ref = "run" } ∷ [];
  verification_results =
      record {
        model = plain_model;
        ref = "result";
        scenario_spec_ref = "unknown";
        platform_governance_ref = none;
      }
      ∷ [];
}

-- An admission, the same once more, a baseline, a comparison, and one of an unknown artifact.
abbrev calls : List Call
calls =
    admit spec_model spec_admission
    ∷ admit spec_model spec_admission
    ∷ register spec_id "OWNER" noon "analyst"
    ∷ compare spec_id noon "analyst"
    ∷ compare "unknown" noon "analyst"
    ∷ admit_runtimes batch noon "analyst"
    ∷ []

audit_chain_valid-after_all_example :
    audit_chain_valid hashes (after_all hashes calls empty_db) ≡ true
audit_chain_valid-after_all_example =
    audit_chain_valid-after_all hashes hashes-AreLawful calls
      (refl, (refl, (tt, (tt, (tt, (refl, tt))))))

after_all-Extends_example :
    Extends
      (after_all hashes calls empty_db)
      (after_all hashes calls (after_all hashes calls empty_db))
after_all-Extends_example =
    after_all-Extends hashes (after_all hashes calls empty_db) hashes-AreLawful calls
      (refl, (refl, (tt, (tt, (tt, (refl, tt))))))

-- The state behind the first call.
abbrev one_call : Db
one_call = after_all hashes (admit spec_model spec_admission ∷ []) empty_db

get_artifact-after_all_example :
    (get_artifact hashes spec_id one_call
      ≡ (ok (spec_row.columns, hashes.loads spec_row.payload_json), one_call))
    × (hashes.canonical_digest (hashes.loads spec_row.payload_json) ≡ spec_row.payload_digest)
unfolding after_all admit_model admit_session admit_row columns_of artifact_id_of short_id
    type_value validate_content_digest append_event find_artifact insert_artifact any ◌>>=◌
get_artifact-after_all_example =
    get_artifact-after_all hashes hashes-AreLawful (admit spec_model spec_admission ∷ []) spec_id
      spec_row (refl, tt) refl

-- An event whose timestamp has no fraction of a second.
append_event-audit_chain_valid_example :
    audit_chain_valid hashes
      (append_event hashes artifact_cached "A1" "analyst" "2026-07-29T12:00:00Z" "P1" empty_db).1
    ≡ str_eq "2026-07-29T12:00:00Z" noon
unfolding event_value
append_event-audit_chain_valid_example =
    append_event-audit_chain_valid hashes empty_db artifact_cached "A1" "analyst"
      "2026-07-29T12:00:00Z" "P1" noon tt refl

append_event-Chained_example :
    (e : AuditEvent) × (append_event hashes artifact_cached "A1" "analyst" noon "P1" empty_db
      ≡ (ok e, record empty_db { audit_events = e ∷ [] }))
    × Chained hashes 1 none (e ∷ [])
append_event-Chained_example =
    append_event-Chained hashes empty_db artifact_cached "A1" "analyst" noon "P1" tt refl

spec-IsAdmissible : (db : Db) → IsAdmissible hashes spec_model spec_admission "then" db
unfolding validate_content_digest ◌>>=◌
spec-IsAdmissible db = record { valid = refl; dated = refl }

spec-IsFresh : IsFresh hashes spec_model spec_admission "then" empty_db
unfolding find_artifact any
spec-IsFresh = record { new_id = refl; new_identity = refl; parent_there = refl }

admit_model-get_artifact_example :
    (e : AuditEvent) × (admit_model hashes spec_model spec_admission empty_db ≡ (
      ok (columns_of hashes spec_model spec_admission "then", false),
      logged hashes spec_model spec_admission "then" empty_db e,
    ))
    × (get_artifact hashes
          (columns_of hashes spec_model spec_admission "then").artifact_id
          (logged hashes spec_model spec_admission "then" empty_db e)
        ≡ (
          ok (
            columns_of hashes spec_model spec_admission "then",
            hashes.loads (hashes.canonical_json (model_value hashes spec_model)),
          ),
          logged hashes spec_model spec_admission "then" empty_db e,
        ))
admit_model-get_artifact_example =
    admit_model-get_artifact hashes spec_model spec_admission "then" empty_db hashes-AreLawful
      (spec-IsAdmissible empty_db) spec-IsFresh tt

-- The same artifact, now as an amendment of another.
abbrev as_amendment : Admission
as_amendment = record spec_admission {
  parent_artifact_id = some "A0";
  invalidates_machine_attestation = true;
}

abbrev spec_db : Db
spec_db = record empty_db { artifacts = spec_row ∷ [] }

-- The amendment returns the record of its own arguments, which is not the stored one.
amended_known :
    admit_model hashes spec_model as_amendment spec_db
    ≡ (ok (columns_of hashes spec_model as_amendment "then", true), spec_db)
unfolding columns_of artifact_id_of short_id type_value model_value find_artifact
    validate_content_digest admit_model admit_session admit_row ◌>>=◌
amended_known = refl

abbrev admitted_db : Db
admitted_db = (admit_model hashes spec_model spec_admission empty_db).1

first_admission :
    admit_model hashes spec_model spec_admission empty_db
    ≡ (ok (columns_of hashes spec_model spec_admission "then", false), admitted_db)
unfolding columns_of artifact_id_of short_id type_value model_value find_artifact
    validate_content_digest admit_model admit_session admit_row insert_artifact append_event any
    ◌>>=◌
first_admission = refl

admit_model-admit_model_example :
    admit_model hashes spec_model spec_admission admitted_db
    ≡ (ok (columns_of hashes spec_model spec_admission "then", true), admitted_db)
admit_model-admit_model_example =
    admit_model-admit_model hashes spec_model spec_admission empty_db admitted_db
      (columns_of hashes spec_model spec_admission "then") false first_admission
