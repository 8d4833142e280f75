-- ===== src/Governance/Readmitted.antt =====
-- An admission that returned, made a second time.
use atlas_db_agent.Prelude.{
  Bool, true, false, ◌&&◌, String, Option, none, some, [], ◌∷◌, ◌++◌, ◌≡◌, refl, sym, ap, ◌∙◌,
  subst, inl, inr, arith, eq_refl, str_eq, any, Bool-cases, Option-cases,
}
use atlas_db_agent.Values.{Hashes, Fields}
use atlas_db_agent.Governance.Rows.{StoredArtifact, ArtifactRow, EventType, artifact_cached, Db}
use atlas_db_agent.Governance.Session.{
  ok, err, Exec, pure, raise, or_raise, session, validation_error, ◌>>=◌,
}
use atlas_db_agent.Governance.Actions.{
  IsStateless, IsStateless-pure, IsStateless-or_raise, IsStateless-require, IsStateless-bind,
  bind-ok, ok-bind, session-ok, ok-session,
}
use atlas_db_agent.Governance.Audit.{append_event}
use atlas_db_agent.Governance.Preserves.Inserts.{append_event-Preserves}
use atlas_db_agent.Governance.Tables.{
  find_artifact, is_some, same_identity, parent_known, insert_artifact,
}
use atlas_db_agent.Governance.Found.{find_artifact-concat}
use atlas_db_agent.Governance.Admission.{
  Model, Admission, model_value, validate_content_digest, columns_of, admit_row, admit_session,
  admit_model,
}

-- An insert that returns has added the row at the end.
inserted_last :
    (r : ArtifactRow) (db db' : Db)
    → insert_artifact r db ≡ (ok tt, db')
    → db'.artifacts ≡ db.artifacts ++ r ∷ []
unfolding insert_artifact ◌>>=◌
inserted_last r db db' e = elim (Bool-cases (is_some (find_artifact r.artifact_id db.artifacts))) [
  | inl t ↦ absurd (ground (arith, ap (λ x. x.0) (rw t at e)))
  | inr f ↦ elim (Bool-cases (any (same_identity r) db.artifacts)) [
    | inl t ↦ absurd (ground (arith, ap (λ x. x.0) (rw (f, t) at e)))
    | inr g ↦ elim (Bool-cases (parent_known r.parent_artifact_id (db.artifacts ++ r ∷ []))) [
      | inr n ↦ absurd (ground (arith, ap (λ x. x.0) (rw (f, g, n) at e)))
      | inl t ↦ sym (ap (λ x. x.1.artifacts) (rw (f, g, t) at e))
    ]
  ]
]

ok_injective : {A : Type 0} {x y : A} → ok x ≡ ok y → x ≡ y
ok_injective {A} {x} {y} q = ap (λ o. elim o as (λ _. A) [ ok z ↦ z | err e ↦ x ]) q

module _ (h : Hashes) where
  append_event-artifacts :
      (kind : EventType) (id actor at digest : String) (db : Db)
      → ((append_event h kind id actor at digest db).1).artifacts ≡ db.artifacts
  append_event-artifacts kind id actor at digest db =
      (append_event-Preserves {P = λ d. d.artifacts ≡ db.artifacts} h kind id actor at digest
          λ e d same. same).at
        db refl

  IsStateless-validate : (m : Model) → IsStateless (validate_content_digest h m)
  unfolding validate_content_digest
  IsStateless-validate m = by_parts m.dump m.content_digest m.gherkin_text
    where
      by_parts :
          (dump : Fields) (d g : Option String)
          → IsStateless (
              validate_content_digest h
                (record { dump = dump; content_digest = d; gherkin_text = g }))
      by_parts dump none g = IsStateless-pure _
      by_parts dump (some d) none =
          IsStateless-bind _ _ (IsStateless-pure _)
            λ x. IsStateless-bind _ _ (IsStateless-require _ _) λ y. IsStateless-pure _
      by_parts dump (some d) (some t) =
          IsStateless-bind _ _ (IsStateless-or_raise _ _)
            λ x. IsStateless-bind _ _ (IsStateless-require _ _) λ y. IsStateless-pure _

  -- A row is stored under the identifier of `row`, with its digests.
  abbrev Known : ArtifactRow → Db → Type 0
  Known row db =
      (found : ArtifactRow) × (find_artifact row.artifact_id db.artifacts ≡ some found)
      × ((str_eq found.content_digest row.content_digest
            && str_eq found.payload_digest row.payload_digest)
          ≡ true)

  admit_session-Known :
      (row : ArtifactRow) (actor : String) (db : Db)
      → Known row db
      → admit_session h row actor db ≡ (ok true, db)
  unfolding admit_session admit_row ◌>>=◌
  admit_session-Known row actor db (found, e, same) = rw e (rw same refl)

  Known-existing :
      (row : ArtifactRow) (actor : String) (db db' : Db) (known : Bool) (found : ArtifactRow)
      → find_artifact row.artifact_id db.artifacts ≡ some found
      → admit_row h row actor (some found) db ≡ (ok known, db')
      → Known row db'
  unfolding admit_row pure raise
  Known-existing row actor db db' known found f e =
      elim (Bool-cases (
        str_eq found.content_digest row.content_digest
        && str_eq found.payload_digest row.payload_digest)) [
          | inl t ↦ subst (Known row) (ap (λ x. x.1) (rw (t, admit_row) at e)) (found, f, t)
          | inr n ↦ absurd (ground (arith, ap (λ x. x.0) (rw (n, admit_row) at e)))
        ]

  Known-added :
      (row : ArtifactRow) (actor : String) (db db' : Db) (known : Bool)
      → find_artifact row.artifact_id db.artifacts ≡ none
      → admit_row h row actor none db ≡ (ok known, db')
      → Known row db'
  unfolding admit_row
  Known-added row actor db db' known n e =
      let logs =
        append_event h artifact_cached row.artifact_id actor row.created_at row.payload_digest in
      let (u, stored, inserted, rest) =
        bind-ok (insert_artifact row) (λ _. logs >>= λ _. pure false) db db' known e in
      let (event, after, logged, last) = bind-ok logs (λ _. pure false) stored db' known rest in
      let ended = (IsStateless-pure false).kept after db' known last in
      let same : after.artifacts ≡ stored.artifacts =
        ap (λ x. x.1.artifacts) (sym logged)
        ∙ append_event-artifacts artifact_cached row.artifact_id actor row.created_at
            row.payload_digest stored in
      let rows = ap (λ (d : Db). d.artifacts) ended ∙ same ∙ inserted_last row db stored inserted in
      (
        row,
        ap (λ rs. find_artifact row.artifact_id rs) rows
            ∙ find_artifact-concat row.artifact_id db.artifacts row n (eq_refl row.artifact_id),
        simp eq_refl refl,
      )

  Known-admitted :
      (row : ArtifactRow) (actor : String) (db db' : Db) (known : Bool)
      → admit_session h row actor db ≡ (ok known, db')
      → Known row db'
  unfolding admit_session
  Known-admitted row actor db db' known e =
      elim (Option-cases (find_artifact row.artifact_id db.artifacts)) [
        | inr (found, f) ↦ Known-existing row actor db db' known found f (rw f at e)
        | inl n ↦ Known-added row actor db db' known n (rw n at e)
      ]

  -- The parts of `admit_model`.
  abbrev new_row : Model → Admission → String → ArtifactRow
  new_row m a d = record {
    columns = columns_of h m a d;
    payload_json = h.canonical_json (model_value h m);
  }

  abbrev answer : Model → Admission → String → String → Bool → StoredArtifact × Bool
  answer m a d t k = (record (columns_of h m a d) { created_at = t }, k)

  abbrev writes : Model → Admission → String → String → Exec (StoredArtifact × Bool)
  writes m a d t =
      session (admit_session h (new_row m a d) a.actor_ref) >>= λ k. pure (answer m a d t k)

  -- An admission that returned, made again, returns the same record, says that it was known, and writes
  -- nothing.
  pub admit_model-admit_model :
      (m : Model) (a : Admission) (db db' : Db) (record_of : StoredArtifact) (known : Bool)
      → admit_model h m a db ≡ (ok (record_of, known), db')
      → admit_model h m a db' ≡ (ok (record_of, true), db')
  unfolding admit_model pure
  admit_model-admit_model m a db db' r known e =
      let dates = λ (d : String).
        or_raise validation_error (h.canonical_timestamp a.created_at) >>= writes m a d in
      let (d, read, valid, rest) =
        bind-ok (validate_content_digest h m) dates db db' (r, known) e in
      let (t, start, dated, then_) =
        bind-ok (or_raise validation_error (h.canonical_timestamp a.created_at)) (writes m a d) read
          db' (r, known) rest in
      let (k, after, admitted, last) =
        bind-ok (session (admit_session h (new_row m a d) a.actor_ref))
          (λ k. pure (answer m a d t k)) start db' (r, known) then_ in
      let stored =
        Known-admitted (new_row m a d) a.actor_ref start after k
          (session-ok _ start after k admitted) in
      let ended = (IsStateless-pure (answer m a d t k)).kept after db' (r, known) last in
      let same_record = ap (λ x. x.0) (ok_injective (ap (λ x. x.0) last)) in
      let known_now = subst (Known (new_row m a d)) (sym ended) stored in
      let second =
        ok-session (admit_session h (new_row m a d) a.actor_ref) db' db' true
          (admit_session-Known (new_row m a d) a.actor_ref db' known_now) in
      ok-bind (validate_content_digest h m) dates db' db' d
        ((IsStateless-validate m).anywhere db read db' d valid)
      ∙ ok-bind (or_raise validation_error (h.canonical_timestamp a.created_at)) (writes m a d) db'
          db' t
          ((IsStateless-or_raise validation_error (h.canonical_timestamp a.created_at)).anywhere
            read start db' t dated)
      ∙ ok-bind (session (admit_session h (new_row m a d) a.actor_ref))
          (λ k. pure (answer m a d t k)) db' db' true second
      ∙ ap (λ x. (ok (x, true), db')) same_record
