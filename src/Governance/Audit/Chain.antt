-- ===== src/Governance/Audit/Chain.antt =====
-- What `_append_event` keeps of the audit chain.
use atlas_db_agent.Prelude.{
  ℕ, suc, ◌+◌, ◌≤◌, true, false, ◌≡◌, refl, String, Option, none, some, List, [], ◌∷◌, ◌++◌, arith,
  length, any, eq_iff, opt_eq, padded12_injective,
}
use text.Mathlib.TextLemmas.{append_cancel_left}
use atlas_db_agent.Prelude.Sorting.{IsSorted, sort-eq_of_IsSorted}
use atlas_db_agent.Values.{Hashes}
use atlas_db_agent.Governance.Rows.{
  EventType, EventPayload, AuditEvent, event_value, event_id_of, Db,
}
use atlas_db_agent.Governance.Session.{ok, ◌>>=◌}
use atlas_db_agent.Governance.Audit.{
  newest, next_sequence, digest_of, clashes, insert_event, by_sequence, append_event, check_chain,
  audit_chain_valid,
}

module _ (h : Hashes) where
  -- Events that stand behind the event number `n - 1` with the digest `previous`.
  abbrev pub Chained : ℕ → Option String → List AuditEvent → Type 0
  Chained n previous [] = Unit
  Chained n previous (e ∷ es) =
      (e.sequence ≡ n)
      × (e.event_id ≡ event_id_of n)
      × (e.previous_event_digest ≡ previous)
      × (e.content_digest ≡ h.canonical_digest (event_value e.payload))
      × Chained (suc n) (some e.content_digest) es

  pub opt_eq_refl : (o : Option String) → opt_eq o o ≡ true
  opt_eq_refl none = refl
  opt_eq_refl (some a) = (eq_iff a a).1 refl

  check_chain-Chained :
      (n : ℕ) (previous : Option String) (es : List AuditEvent)
      → Chained n previous es
      → check_chain h previous es ≡ true
  unfolding check_chain
  check_chain-Chained n previous [] c = refl
  check_chain-Chained n previous (e ∷ es) (s, i, p, d, c) = ground (
    arith,
    opt_eq_refl previous,
    (eq_iff e.content_digest (h.canonical_digest (event_value e.payload))),
    check_chain-Chained (suc n) (some e.content_digest) es c,
  )

  IsSorted-Chained :
      (n : ℕ) (previous : Option String) (es : List AuditEvent)
      → Chained n previous es
      → IsSorted by_sequence es
  unfolding by_sequence
  IsSorted-Chained n previous [] c = tt
  IsSorted-Chained n previous (e ∷ []) c = tt
  IsSorted-Chained n previous (e ∷ d ∷ es) (s, i, p, g, c) =
      (ground arith, IsSorted-Chained (suc n) (some e.content_digest) (d ∷ es) c)

  -- A chained table passes the check of `history`.
  pub audit_chain_valid-Chained :
      (db : Db) → Chained 1 none db.audit_events → audit_chain_valid h db ≡ true
  unfolding audit_chain_valid
  audit_chain_valid-Chained db c =
      rw (sort-eq_of_IsSorted by_sequence db.audit_events (IsSorted-Chained 1 none _ c))
        (check_chain-Chained 1 none _ c)

  -- The digest that the event behind `es` has to name.
  abbrev pub last_digest : Option String → List AuditEvent → Option String
  last_digest previous [] = previous
  last_digest previous (e ∷ es) = last_digest (some e.content_digest) es

  -- The newest event of a chained table is its last one.
  Chained-newest :
      (n : ℕ) (previous : Option String) (e : AuditEvent) (es : List AuditEvent)
      → Chained n previous (e ∷ es)
      → (l : AuditEvent) × (newest (e ∷ es) ≡ some l)
        × (l.sequence ≡ n + length es)
        × (some l.content_digest ≡ last_digest previous (e ∷ es))
  unfolding newest
  Chained-newest n previous e [] c = (e, refl, omega arith, refl)
  Chained-newest n previous e (d ∷ es) (s, i, p, g, c) =
      let (l, eq, num, dig) = Chained-newest (suc n) (some e.content_digest) d es c in
      (l, rw eq (ground arith), omega arith, dig)

  pub next-Chained :
      (es : List AuditEvent)
      → Chained 1 none es
      → (next_sequence (newest es) ≡ 1 + length es) × (digest_of (newest es) ≡ last_digest none es)
  next-Chained [] c = unfold newest in (refl, refl)
  next-Chained (e ∷ es) c =
      let (l, eq, num, dig) = Chained-newest 1 none e es c in rw eq (omega arith, dig)

  event_id_injective : (n m : ℕ) → event_id_of n ≡ event_id_of m → n ≡ m
  unfolding event_id_of
  event_id_injective n m eq = padded12_injective n m (append_cancel_left "audit-" _ _ eq)

  -- An event with the next number meets neither the primary key nor the UNIQUE column.
  pub Chained-any-clashes :
      (n : ℕ) (previous : Option String) (es : List AuditEvent) (e : AuditEvent)
      → Chained n previous es
      → n + length es ≤ e.sequence
      → e.event_id ≡ event_id_of e.sequence
      → any (clashes e) es ≡ false
  unfolding any
  Chained-any-clashes n previous [] e c m i = refl
  Chained-any-clashes n previous (d ∷ es) e (s, j, p, g, c) m i = ground (
    arith,
    eq_iff d.event_id e.event_id,
    event_id_injective n e.sequence,
    Chained-any-clashes (suc n) (some d.content_digest) es e c,
  )

  Chained-concat :
      (n : ℕ) (previous : Option String) (es : List AuditEvent) (e : AuditEvent)
      → Chained n previous es
      → e.sequence ≡ n + length es
      → e.event_id ≡ event_id_of e.sequence
      → e.previous_event_digest ≡ last_digest previous es
      → e.content_digest ≡ h.canonical_digest (event_value e.payload)
      → Chained n previous (es ++ e ∷ [])
  Chained-concat n previous [] e c s i p g = (omega arith, ground arith, p, g, tt)
  Chained-concat n previous (d ∷ es) e (s', i', p', g', c) s i p g =
      (s', i', p', g', Chained-concat (suc n) (some d.content_digest) es e c (omega arith) i p g)

  -- The event that `_append_event` builds, when its timestamp is canonical already.
  abbrev pub next_event : Db → EventType → String → String → String → String → AuditEvent
  next_event db kind artifact_id actor_ref event_at payload_digest =
      let previous = newest db.audit_events in
      let payload : EventPayload = record {
        event_id = event_id_of (next_sequence previous);
        sequence = next_sequence previous;
        event_type = kind;
        artifact_id = artifact_id;
        actor_ref = actor_ref;
        event_at = event_at;
        payload_digest = payload_digest;
        previous_event_digest = digest_of previous;
      } in
      record { payload = payload; content_digest = h.canonical_digest (event_value payload) }

  next_event-Chained :
      (db : Db) (kind : EventType) (artifact_id actor_ref event_at payload_digest : String)
      → Chained 1 none db.audit_events
      → Chained 1 none
          (db.audit_events ++ next_event db kind artifact_id actor_ref event_at payload_digest ∷ [])
  next_event-Chained db kind artifact_id actor_ref event_at payload_digest c =
      let e = next_event db kind artifact_id actor_ref event_at payload_digest in
      let (num, dig) = next-Chained db.audit_events c in
      Chained-concat 1 none db.audit_events e c num refl dig refl

  -- Appending an event with a canonical timestamp to a chained table succeeds, adds one event at
  -- its end, changes nothing else, and leaves a chained table.
  pub append_event-Chained :
      (db : Db) (kind : EventType) (artifact_id actor_ref event_at payload_digest : String)
      → Chained 1 none db.audit_events
      → h.canonical_timestamp event_at ≡ some event_at
      → (e : AuditEvent) × (append_event h kind artifact_id actor_ref event_at payload_digest db
          ≡ (ok e, record db { audit_events = db.audit_events ++ e ∷ [] }))
        × Chained 1 none (db.audit_events ++ e ∷ [])
  unfolding append_event insert_event ◌>>=◌
  append_event-Chained db kind artifact_id actor_ref event_at payload_digest c t =
      let e = next_event db kind artifact_id actor_ref event_at payload_digest in
      let (num, dig) = next-Chained db.audit_events c in
      (
        e,
        rw t (rw (Chained-any-clashes 1 none db.audit_events e c (omega arith) refl) refl),
        next_event-Chained db kind artifact_id actor_ref event_at payload_digest c,
      )
