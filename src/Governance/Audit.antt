-- ===== src/Governance/Audit.antt =====
-- The audit chain: `_append_event`, and the chain check of `history`.
pub mod Chain
pub mod Stamped
use atlas_db_agent.Prelude.{
  ℕ, ◌+◌, Bool, true, false, not, ◌&&◌, ◌||◌, String, Option, none, some, List, [], ◌∷◌, ◌++◌, leb,
  ◌==◌, str_eq, opt_eq, if◌then◌else◌, any,
}
use atlas_db_agent.Prelude.Sorting.{sort}
use atlas_db_agent.Values.{Hashes}
use atlas_db_agent.Governance.Rows.{
  EventType, EventPayload, AuditEvent, event_value, event_id_of, Db,
}
use atlas_db_agent.Governance.Session.{
  Exec, pure, raise, or_raise, require, ◌>>=◌, ◌>>◌, integrity_error, validation_error,
}

-- `ORDER BY sequence DESC LIMIT 1`
later : AuditEvent → Option AuditEvent → Option AuditEvent
later e none = some e
later e (some d) = if leb e.sequence d.sequence then some d else some e

unfoldable pub newest : List AuditEvent → Option AuditEvent
unfolding later
newest [] = none
newest (e ∷ es) = later e (newest es)

-- `1 if previous is None else int(previous["sequence"]) + 1`
abbrev pub next_sequence : Option AuditEvent → ℕ
next_sequence none = 1
next_sequence (some e) = e.sequence + 1

abbrev pub digest_of : Option AuditEvent → Option String
digest_of none = none
digest_of (some e) = some e.content_digest

-- `event_id` is the primary key of the table and `sequence` is UNIQUE.
abbrev pub clashes : AuditEvent → AuditEvent → Bool
clashes e d = str_eq d.event_id e.event_id || d.sequence == e.sequence

unfoldable pub insert_event : AuditEvent → Exec (Unit {0})
insert_event e db =
    (if any (clashes e) db.audit_events then raise integrity_error else λ db'.
    pure tt (record db' { audit_events = db'.audit_events ++ e ∷ [] }))
      db

unfoldable pub by_sequence : AuditEvent → AuditEvent → Bool
by_sequence e d = leb e.sequence d.sequence

module _ (h : Hashes) where
  -- The digest is taken over `event_at` as it was given; the model then holds, and the row
  -- stores, the canonical timestamp.
  unfoldable pub append_event : EventType → String → String → String → String → Exec AuditEvent
  unfolding insert_event newest
  append_event kind artifact_id actor_ref event_at payload_digest db =
      let previous = newest db.audit_events in
      let payload : EventPayload = record {
        event_id = event_id_of (next_sequence previous);
        sequence = next_sequence previous;
        event_type = kind;
        artifact_id = artifact_id;
        actor_ref = actor_ref;
        event_at = event_at;
        payload_digest = payload_digest;
        previous_event_digest = digest_of previous;
      } in
      (do
        stored_at ← or_raise validation_error (h.canonical_timestamp event_at)
        let event : AuditEvent = record {
          payload = record payload { event_at = stored_at };
          content_digest = h.canonical_digest (event_value payload);
        }
        insert_event event
        pure event)
        db

  -- The loop of `history` over all events.
  unfoldable pub check_chain : Option String → List AuditEvent → Bool
  check_chain previous [] = true
  check_chain previous (e ∷ es) =
      let rest = check_chain (some e.content_digest) es in
      if not (opt_eq e.previous_event_digest previous)
        || not (str_eq e.content_digest (h.canonical_digest (event_value e.payload)))
      then false
      else rest

  unfoldable pub audit_chain_valid : Db → Bool
  unfolding check_chain by_sequence
  audit_chain_valid db = check_chain none (sort by_sequence db.audit_events)
