-- ===== src/Governance/Trace/Audited.antt =====
-- The audit chain stays valid over every sequence of calls.
use atlas_db_agent.Prelude.{true, none, some, List, ◌≡◌, String, All}
use atlas_db_agent.Values.{Hashes}
use atlas_db_agent.Governance.Rows.{Db, EventType, empty_db}
use atlas_db_agent.Governance.Audit.{audit_chain_valid, append_event}
use atlas_db_agent.Governance.Audit.Chain.{Chained, append_event-Chained, audit_chain_valid-Chained}
use atlas_db_agent.Governance.Preserves.{Preserves}
use atlas_db_agent.Governance.Preserves.Laws.{AreLawful, KeptByInserts}
use atlas_db_agent.Governance.Preserves.Inserts.{
  insert_artifact-Preserves, insert_baseline-Preserves, insert_or_ignore_comparison-Preserves,
  insert_amendment-Preserves, insert_platform_decision-Preserves, insert_certification-Preserves,
}
use atlas_db_agent.Governance.Trace.{Call, after_all, IsDated, after_all-keeps}

module _ (h : Hashes) where
  abbrev pub IsAudited : Db → Type 0
  IsAudited db = Chained h 1 none db.audit_events

  append_event-IsAudited :
      (kind : EventType) (artifact_id actor_ref event_at payload_digest : String)
      → h.canonical_timestamp event_at ≡ some event_at
      → Preserves IsAudited (append_event h kind artifact_id actor_ref event_at payload_digest)
  append_event-IsAudited kind artifact_id actor_ref event_at payload_digest t = record {
    at = λ db c.
        let (e, eq, c') =
          append_event-Chained h db kind artifact_id actor_ref event_at payload_digest c t in
        rw eq c';
  }

  IsAudited-KeptByInserts : KeptByInserts h IsAudited
  IsAudited-KeptByInserts = record {
    by_artifact = λ r _. insert_artifact-Preserves r (λ db c. c);
    by_event = append_event-IsAudited;
    by_baseline = λ r. insert_baseline-Preserves r (λ db c. c);
    by_comparison = λ r. insert_or_ignore_comparison-Preserves r (λ db c. c);
    by_amendment = λ r. insert_amendment-Preserves r (λ db c. c);
    by_decision = λ r. insert_platform_decision-Preserves r (λ db c. c);
    by_certification = λ r. insert_certification-Preserves r (λ db c. c);
  }

  -- With lawful hashes, after any calls with canonical timestamps on an empty store, failing ones
  -- included, the chain check of `history` passes.
  pub audit_chain_valid-after_all :
      AreLawful h
      → (cs : List Call) → All (IsDated h) cs
      → audit_chain_valid h (after_all h cs empty_db) ≡ true
  audit_chain_valid-after_all law cs d =
      audit_chain_valid-Chained h _ (after_all-keeps h law IsAudited-KeptByInserts cs empty_db d tt)
