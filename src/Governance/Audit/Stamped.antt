-- ===== src/Governance/Audit/Stamped.antt =====
-- What `_append_event` does with a timestamp that is not canonical.
use atlas_db_agent.Prelude.{
  ℕ, suc, ◌+◌, ◌≤◌, ◌≡◌, refl, String, Option, none, some, List, [], ◌∷◌, ◌++◌, arith, length,
  eq_iff, str_eq,
}
use atlas_db_agent.Prelude.Sorting.{IsSorted, sort-eq_of_IsSorted}
use atlas_db_agent.Values.{Hashes}
use atlas_db_agent.Governance.Rows.{EventType, AuditEvent, event_value, Db}
use atlas_db_agent.Governance.Session.{◌>>=◌}
use atlas_db_agent.Governance.Audit.{
  insert_event, by_sequence, append_event, check_chain, audit_chain_valid,
}
use atlas_db_agent.Governance.Audit.Chain.{
  Chained, opt_eq_refl, next-Chained, Chained-any-clashes, last_digest, next_event,
}

module _ (h : Hashes) where
  -- Sequence numbers and links, for a last event that need not have the right digest.
  IsSorted-concat :
      (n : ℕ) (previous : Option String) (es : List AuditEvent) (e : AuditEvent)
      → Chained h n previous es
      → n + length es ≤ e.sequence
      → IsSorted by_sequence (es ++ e ∷ [])
  unfolding by_sequence
  IsSorted-concat n previous [] e c m = tt
  IsSorted-concat n previous (d ∷ []) e (s, i, p, g, c) m = (ground arith, tt)
  IsSorted-concat n previous (d ∷ f ∷ es) e (s, i, p, g, c) m =
      (ground arith, IsSorted-concat (suc n) (some d.content_digest) (f ∷ es) e c (omega arith))

  check_chain-concat :
      (n : ℕ) (previous : Option String) (es : List AuditEvent) (e : AuditEvent)
      → Chained h n previous es
      → check_chain h previous (es ++ e ∷ []) ≡ check_chain h (last_digest h previous es) (e ∷ [])
  unfolding check_chain
  check_chain-concat n previous [] e c = refl
  check_chain-concat n previous (d ∷ es) e (s, i, p, g, c) = ground (
    arith,
    opt_eq_refl h previous,
    eq_iff d.content_digest (h.canonical_digest (event_value d.payload)),
    check_chain-concat (suc n) (some d.content_digest) es e c,
  )

  check_chain_one :
      (previous : Option String) (e : AuditEvent)
      → e.previous_event_digest ≡ previous
      → check_chain h previous (e ∷ [])
        ≡ str_eq e.content_digest (h.canonical_digest (event_value e.payload))
  unfolding check_chain
  check_chain_one previous e p = ground (arith, opt_eq_refl h previous)

  -- After an event was appended to a chained table, `history` calls the chain valid exactly when
  -- the digest over the timestamp that was given is the digest over the one that was stored.
  pub append_event-audit_chain_valid :
      (db : Db) (kind : EventType)
      (artifact_id actor_ref event_at payload_digest stored_at : String)
      → Chained h 1 none db.audit_events
      → h.canonical_timestamp event_at ≡ some stored_at
      → let given = (next_event h db kind artifact_id actor_ref event_at payload_digest).payload in
        let stored = record given { event_at = stored_at } in
        audit_chain_valid h (append_event h kind artifact_id actor_ref event_at payload_digest db).1
        ≡ str_eq (h.canonical_digest (event_value given)) (h.canonical_digest (event_value stored))
  unfolding append_event insert_event ◌>>=◌ audit_chain_valid
  append_event-audit_chain_valid db kind artifact_id actor_ref event_at payload_digest stored_at c
        t =
      let given = (next_event h db kind artifact_id actor_ref event_at payload_digest).payload in
      let e : AuditEvent = record {
        payload = record given { event_at = stored_at };
        content_digest = h.canonical_digest (event_value given);
      } in
      let (num, dig) = next-Chained h db.audit_events c in
      rw t (
        rw (Chained-any-clashes h 1 none db.audit_events e c (omega arith) refl) (
          rw
            (sort-eq_of_IsSorted by_sequence (db.audit_events ++ e ∷ [])
              (IsSorted-concat 1 none db.audit_events e c (omega arith)))
            (rw (check_chain-concat 1 none db.audit_events e c)
              (check_chain_one (last_digest h none db.audit_events) e dig))))
