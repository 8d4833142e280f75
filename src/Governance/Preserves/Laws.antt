-- ===== src/Governance/Preserves/Laws.antt =====
-- What is assumed of the hashing code, and what the inserts have to keep.
use atlas_db_agent.Prelude.{String, some, ◌≡◌}
use atlas_db_agent.Values.{Hashes, Value}
use atlas_db_agent.Governance.Rows.{
  EventType, ArtifactRow, Baseline, Comparison, Amendment, PlatformDecision, Certification, Db,
}
use atlas_db_agent.Governance.Audit.{append_event}
use atlas_db_agent.Governance.Tables.{
  insert_artifact, insert_baseline, insert_or_ignore_comparison, insert_amendment,
  insert_platform_decision, insert_certification,
}
use atlas_db_agent.Governance.Preserves.{Preserves}

-- `json.loads` gives back a value with the digest of the one that was written, and a canonical
-- timestamp is its own canonical form.
pub record AreLawful (h : Hashes) : Type 0 where
  pub digest-loads :
      (v : Value) → h.canonical_digest (h.loads (h.canonical_json v)) ≡ h.canonical_digest v
  pub timestamp_idem :
      (t u : String) → h.canonical_timestamp t ≡ some u → h.canonical_timestamp u ≡ some u

-- A row that `get_artifact` can read back.
pub record IsReadable (h : Hashes) (r : ArtifactRow) : Type 0 where
  pub intact : h.canonical_digest (h.loads r.payload_json) ≡ r.payload_digest
  pub dated : h.canonical_timestamp r.created_at ≡ some r.created_at

pub record KeptByInserts {ℓ} (h : Hashes) (P : Db → Type ℓ) : Type ℓ where
  pub by_artifact : (r : ArtifactRow) → IsReadable h r → Preserves P (insert_artifact r)
  pub by_event :
      (kind : EventType) (artifact_id actor_ref event_at payload_digest : String)
      → h.canonical_timestamp event_at ≡ some event_at
      → Preserves P (append_event h kind artifact_id actor_ref event_at payload_digest)
  pub by_baseline : (b : Baseline) → Preserves P (insert_baseline b)
  pub by_comparison : (c : Comparison) → Preserves P (insert_or_ignore_comparison c)
  pub by_amendment : (a : Amendment) → Preserves P (insert_amendment a)
  pub by_decision : (e : PlatformDecision) → Preserves P (insert_platform_decision e)
  pub by_certification : (e : Certification) → Preserves P (insert_certification e)
