-- ===== src/Governance/Preserves/Inserts.antt =====
-- An insert keeps a property that one more row in its table keeps.
use atlas_db_agent.Prelude.{Bool, true, false, String, [], ◌∷◌, ◌++◌, if◌then◌else◌}
use atlas_db_agent.Values.{Hashes}
use atlas_db_agent.Governance.Rows.{
  EventType, ArtifactRow, Baseline, Comparison, Amendment, PlatformDecision, Certification,
  AuditEvent, Db,
}
use atlas_db_agent.Governance.Session.{Exec, pure, integrity_error}
use atlas_db_agent.Governance.Audit.{insert_event, append_event}
use atlas_db_agent.Governance.Tables.{
  insert_artifact, insert_baseline, insert_or_ignore_comparison, insert_amendment,
  insert_platform_decision, insert_certification,
}
use atlas_db_agent.Governance.Preserves.{
  Preserves, Preserves-pure, Preserves-raise, Preserves-or_raise, Preserves-require, Preserves-bind,
}

module _ {ℓ} {P : Db → Type ℓ} where
  -- The write behind the constraints.
  write-Preserves :
      (f : Db → Db) → ((db : Db) → P db → P (f db)) → Preserves P (λ db. pure tt (f db))
  unfolding pure
  write-Preserves f k = record { at = k }

  if-Preserves :
      {A : Type 0} (b : Bool) (m n : Exec A)
      → Preserves P m
      → Preserves P n
      → Preserves P (if b then m else n)
  if-Preserves true m n k g = k
  if-Preserves false m n k g = g

  pub insert_artifact-Preserves :
      (r : ArtifactRow)
      → ((db : Db) → P db → P (record db { artifacts = db.artifacts ++ r ∷ [] }))
      → Preserves P (insert_artifact r)
  unfolding insert_artifact
  insert_artifact-Preserves r keep = record {
    at = λ db p.
        (Preserves-bind _ _ (Preserves-require _ _) λ _.
            Preserves-bind _ _ (Preserves-require _ _)
              λ _. Preserves-bind _ _ (Preserves-require _ _) λ _. write-Preserves _ keep).at
          db p;
  }

  pub insert_baseline-Preserves :
      (r : Baseline)
      → ((db : Db) → P db → P (record db { baselines = db.baselines ++ r ∷ [] }))
      → Preserves P (insert_baseline r)
  unfolding insert_baseline
  insert_baseline-Preserves r keep = record {
    at = λ db p.
        (Preserves-bind _ _ (Preserves-require _ _)
            λ _. Preserves-bind _ _ (Preserves-require _ _) λ _. write-Preserves _ keep).at
          db p;
  }

  pub insert_amendment-Preserves :
      (r : Amendment)
      → ((db : Db) → P db → P (record db { amendments = db.amendments ++ r ∷ [] }))
      → Preserves P (insert_amendment r)
  unfolding insert_amendment
  insert_amendment-Preserves r keep = record {
    at = λ db p.
        (Preserves-bind _ _ (Preserves-require _ _) λ _.
            Preserves-bind _ _ (Preserves-require _ _)
              λ _. Preserves-bind _ _ (Preserves-require _ _) λ _. write-Preserves _ keep).at
          db p;
  }

  pub insert_platform_decision-Preserves :
      (r : PlatformDecision)
      → ((db : Db) → P db → P (record db { platform_decisions = db.platform_decisions ++ r ∷ [] }))
      → Preserves P (insert_platform_decision r)
  unfolding insert_platform_decision
  insert_platform_decision-Preserves r keep = record {
    at = λ db p.
        (Preserves-bind _ _ (Preserves-require _ _)
            λ _. Preserves-bind _ _ (Preserves-require _ _) λ _. write-Preserves _ keep).at
          db p;
  }

  pub insert_certification-Preserves :
      (r : Certification)
      → ((db : Db) → P db → P (record db { certifications = db.certifications ++ r ∷ [] }))
      → Preserves P (insert_certification r)
  unfolding insert_certification
  insert_certification-Preserves r keep = record {
    at = λ db p.
        (Preserves-bind _ _ (Preserves-require _ _)
            λ _. Preserves-bind _ _ (Preserves-require _ _) λ _. write-Preserves _ keep).at
          db p;
  }

  pub insert_or_ignore_comparison-Preserves :
      (r : Comparison)
      → ((db : Db) → P db → P (record db { comparisons = db.comparisons ++ r ∷ [] }))
      → Preserves P (insert_or_ignore_comparison r)
  unfolding insert_or_ignore_comparison
  insert_or_ignore_comparison-Preserves r keep = record {
    at = λ db p.
        (if-Preserves _ _ _ (Preserves-pure tt) (
            Preserves-bind _ _ (Preserves-require _ _)
              λ _. Preserves-bind _ _ (Preserves-require _ _) λ _. write-Preserves _ keep)).at
          db p;
  }

  insert_event-Preserves :
      (e : AuditEvent)
      → ((db : Db) → P db → P (record db { audit_events = db.audit_events ++ e ∷ [] }))
      → Preserves P (insert_event e)
  unfolding insert_event
  insert_event-Preserves e keep = record {
    at = λ db p.
        (if-Preserves _ _ _ (Preserves-raise integrity_error) (write-Preserves _ keep)).at db p;
  }

  pub append_event-Preserves :
      (h : Hashes) (kind : EventType) (artifact_id actor_ref event_at payload_digest : String)
      → ((e : AuditEvent) (db : Db)
          → P db
          → P (record db { audit_events = db.audit_events ++ e ∷ [] }))
      → Preserves P (append_event h kind artifact_id actor_ref event_at payload_digest)
  unfolding append_event
  append_event-Preserves h kind artifact_id actor_ref event_at payload_digest keep = record {
    at = λ db p.
        (Preserves-or_raise _ _ _
            λ t _. Preserves-bind _ _ (insert_event-Preserves _ (keep _)) λ _. Preserves-pure _).at
          db p;
  }
