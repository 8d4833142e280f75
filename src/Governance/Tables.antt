-- ===== src/Governance/Tables.antt =====
-- The SQL statements of the store on its tables: reads by key, and inserts under the constraints
-- of governance_migrations/ (primary keys, UNIQUE columns, foreign keys).
use Prim.Native.String.{slice, ◌++◌ as text_append}
use atlas_db_agent.Prelude.{
  Bool, true, false, not, ◌&&◌, String, Option, none, some, List, [], ◌∷◌, ◌++◌, str_eq,
  if◌then◌else◌, any,
}
use atlas_db_agent.Values.{Hashes}
use atlas_db_agent.Governance.Rows.{
  ArtifactRow, Baseline, Comparison, Amendment, PlatformDecision, Certification, type_value,
}
use atlas_db_agent.Governance.Session.{
  Exec, pure, raise, require, ◌>>◌, integrity_error, binding_conflict,
}
pub use atlas_db_agent.Prelude.Texts.{str_le}

-- `"\0".join(parts)`, as the f-strings of the identifiers write it.
abbrev pub joined : List String → String
joined [] = ""
joined (p ∷ []) = p
joined (p ∷ q ∷ ps) = text_append p (text_append "\0" (joined (q ∷ ps)))

-- `prefix + sha256(…).hexdigest()[:24]`
unfoldable pub short_id : Hashes → String → List String → String
short_id h prefix parts = text_append prefix (slice (h.sha256_hex (joined parts)) 0 24)

-- `WHERE artifact_id = ?`
unfoldable pub find_artifact : String → List ArtifactRow → Option ArtifactRow
find_artifact id [] = none
find_artifact id (r ∷ rs) = if str_eq r.artifact_id id then some r else find_artifact id rs

abbrev pub is_some {ℓ} : {A : Type ℓ} → Option A → Bool
is_some none = false
is_some (some a) = true

-- UNIQUE (artifact_type, artifact_ref, content_digest)
abbrev pub same_identity : ArtifactRow → ArtifactRow → Bool
same_identity r s =
    str_eq (type_value s.artifact_type) (type_value r.artifact_type)
    && str_eq s.artifact_ref r.artifact_ref
    && str_eq s.content_digest r.content_digest

-- The foreign key of `parent_artifact_id`, which is checked after the insert: a row may be its own
-- parent.
abbrev pub parent_known : Option String → List ArtifactRow → Bool
parent_known none rows = true
parent_known (some p) rows = is_some (find_artifact p rows)

unfoldable pub insert_artifact : ArtifactRow → Exec (Unit {0})
insert_artifact r db =
    (do
      require (not (is_some (find_artifact r.artifact_id db.artifacts))) integrity_error
      require (not (any (same_identity r) db.artifacts)) integrity_error
      require (parent_known r.parent_artifact_id (db.artifacts ++ r ∷ [])) integrity_error
      λ db'. pure tt (record db' { artifacts = db'.artifacts ++ r ∷ [] }))
      db

-- `SELECT content_digest FROM table WHERE key_column = ?`
module _ {A : Type 0} (key digest : A → String) where
  unfoldable pub digest_at : String → List A → Option String
  digest_at k [] = none
  digest_at k (r ∷ rs) = if str_eq (key r) k then some (digest r) else digest_at k rs

-- `_ensure_idempotent_binding`, on the row that was found.
unfoldable pub ensure_idempotent_binding : Option String → String → Exec Bool
ensure_idempotent_binding none content_digest = pure false
ensure_idempotent_binding (some d) content_digest =
    if str_eq d content_digest then pure true else raise binding_conflict

abbrev pub baseline_digest : String → List Baseline → Option String
baseline_digest = digest_at (λ b. b.registration_id) (λ b. b.content_digest)

abbrev pub decision_digest : String → List PlatformDecision → Option String
decision_digest = digest_at (λ b. b.binding_id) (λ b. b.content_digest)

abbrev pub certification_digest : String → List Certification → Option String
certification_digest = digest_at (λ b. b.certification_binding_id) (λ b. b.content_digest)

abbrev pub comparison_digest : String → List Comparison → Option String
comparison_digest = digest_at (λ b. b.comparison_id) (λ b. b.content_digest)

abbrev pub amendment_digest : String → List Amendment → Option String
amendment_digest = digest_at (λ b. b.amendment_id) (λ b. b.content_digest)

unfoldable pub insert_baseline : Baseline → Exec (Unit {0})
insert_baseline b db =
    (do
      require (not (is_some (baseline_digest b.registration_id db.baselines))) integrity_error
      require (is_some (find_artifact b.artifact_id db.artifacts)) integrity_error
      λ db'. pure tt (record db' { baselines = db'.baselines ++ b ∷ [] }))
      db

unfoldable pub insert_platform_decision : PlatformDecision → Exec (Unit {0})
insert_platform_decision b db =
    (do
      require (not (is_some (decision_digest b.binding_id db.platform_decisions))) integrity_error
      require (is_some (find_artifact b.artifact_id db.artifacts)) integrity_error
      λ db'. pure tt (record db' { platform_decisions = db'.platform_decisions ++ b ∷ [] }))
      db

unfoldable pub insert_certification : Certification → Exec (Unit {0})
insert_certification b db =
    (do
      require (not (is_some (certification_digest b.certification_binding_id db.certifications)))
          integrity_error
      require (is_some (find_artifact b.artifact_id db.artifacts)) integrity_error
      λ db'. pure tt (record db' { certifications = db'.certifications ++ b ∷ [] }))
      db

unfoldable pub insert_amendment : Amendment → Exec (Unit {0})
insert_amendment b db =
    (do
      require (not (is_some (amendment_digest b.amendment_id db.amendments))) integrity_error
      require (is_some (find_artifact b.original_artifact_id db.artifacts)) integrity_error
      require (is_some (find_artifact b.amended_artifact_id db.artifacts)) integrity_error
      λ db'. pure tt (record db' { amendments = db'.amendments ++ b ∷ [] }))
      db

-- `INSERT OR IGNORE`: a row under a known primary key changes nothing; a foreign key still raises.
unfoldable pub insert_or_ignore_comparison : Comparison → Exec (Unit {0})
insert_or_ignore_comparison c db =
    (if is_some (comparison_digest c.comparison_id db.comparisons) then pure tt else do
      require (is_some (find_artifact c.candidate_artifact_id db.artifacts)) integrity_error
      require (parent_known c.baseline_artifact_id db.artifacts) integrity_error
      λ db'. pure tt (record db' { comparisons = db'.comparisons ++ c ∷ [] }))
      db
