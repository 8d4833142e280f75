-- ===== src/Governance/Preserves/Admitting.antt =====
-- `_admit_model` and `get_artifact` keep a property that every insert keeps.
use atlas_db_agent.Prelude.{false, String, Option, none, some, ◌≡◌, arith}
use atlas_db_agent.Values.{Hashes}
use atlas_db_agent.Governance.Rows.{ArtifactRow, Db}
use atlas_db_agent.Governance.Session.{◌>>=◌}
use atlas_db_agent.Governance.Tables.{find_artifact, ensure_idempotent_binding}
use atlas_db_agent.Governance.Admission.{
  Model, Admission, model_value, validate_content_digest, columns_of, admit_row, admit_session,
  admit_model, get_artifact,
}
use atlas_db_agent.Governance.Preserves.{
  Preserves, Preserves-of_reads, Preserves-pure, Preserves-or_raise, Preserves-session,
  Preserves-bind,
}
use atlas_db_agent.Governance.Preserves.Laws.{AreLawful, IsReadable, KeptByInserts}

module _ (h : Hashes) where
  validate_content_digest_reads : (m : Model) (db : Db) → (validate_content_digest h m db).1 ≡ db
  unfolding validate_content_digest ◌>>=◌
  validate_content_digest_reads m db = ground arith

  get_artifact_reads : (id : String) (db : Db) → (get_artifact h id db).1 ≡ db
  unfolding get_artifact ◌>>=◌
  get_artifact_reads id db = ground arith

module _ {ℓ} (h : Hashes) (law : AreLawful h) {P : Db → Type ℓ} (k : KeptByInserts h P) where
  pub get_artifact-Preserves : (id : String) → Preserves P (get_artifact h id)
  get_artifact-Preserves id = Preserves-of_reads _ (get_artifact_reads h id)

  pub validate_content_digest-Preserves : (m : Model) → Preserves P (validate_content_digest h m)
  validate_content_digest-Preserves m = Preserves-of_reads _ (validate_content_digest_reads h m)

  admit_row-Preserves :
      (row : ArtifactRow) (actor_ref : String) (found : Option ArtifactRow)
      → IsReadable h row
      → Preserves P (admit_row h row actor_ref found)
  unfolding admit_row
  admit_row-Preserves row actor_ref none i =
      Preserves-bind _ _ (k.by_artifact row i)
        λ _. Preserves-bind _ _ (k.by_event _ _ _ _ _ i.dated) λ _. Preserves-pure false
  admit_row-Preserves row actor_ref (some existing) i =
      Preserves-of_reads _ (λ db. unfold ◌>>=◌ in ground arith)

  admit_session-Preserves :
      (row : ArtifactRow) (actor_ref : String)
      → IsReadable h row
      → Preserves P (admit_session h row actor_ref)
  unfolding admit_session
  admit_session-Preserves row actor_ref i = record {
    at = λ db p.
        (admit_row-Preserves row actor_ref (find_artifact row.artifact_id db.artifacts) i).at db p;
  }

  -- `_admit_model` keeps it when `created_at` is canonical.
  pub admit_model-Preserves :
      (m : Model) (a : Admission)
      → h.canonical_timestamp a.created_at ≡ some a.created_at
      → Preserves P (admit_model h m a)
  unfolding admit_model columns_of
  admit_model-Preserves m a t = Preserves-bind _ _ (validate_content_digest-Preserves m) λ d.
      Preserves-or_raise _ _ _ λ c _.
        Preserves-bind _ _
          (Preserves-session _ (
            admit_session-Preserves _ _
              (record { intact = law.digest-loads (model_value h m); dated = t })))
          λ known. Preserves-pure _

  pub ensure-Preserves :
      (found : Option String) (digest : String)
      → Preserves P (ensure_idempotent_binding found digest)
  unfolding ensure_idempotent_binding
  ensure-Preserves found digest = Preserves-of_reads _ (λ db. unfold ◌>>=◌ in ground arith)
