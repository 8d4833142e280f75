-- ===== src/Governance/Trace/Readable.antt =====
-- What was admitted can be read back.
use atlas_db_agent.Prelude.{
  some, String, List, [], ◌∷◌, ◌++◌, ◌≡◌, subst, arith, eq_iff, All, Bool-cases, inl, inr, str_eq,
}
use atlas_db_agent.Values.{Hashes}
use atlas_db_agent.Governance.Rows.{ArtifactRow, Db, empty_db}
use atlas_db_agent.Governance.Session.{ok, ◌>>=◌}
use atlas_db_agent.Governance.Tables.{find_artifact}
use atlas_db_agent.Governance.Admission.{get_artifact}
use atlas_db_agent.Governance.Preserves.Laws.{AreLawful, IsReadable, KeptByInserts}
use atlas_db_agent.Governance.Preserves.Inserts.{
  insert_artifact-Preserves, insert_baseline-Preserves, insert_or_ignore_comparison-Preserves,
  insert_amendment-Preserves, insert_platform_decision-Preserves, insert_certification-Preserves,
  append_event-Preserves,
}
use atlas_db_agent.Governance.Trace.{Call, after_all, IsDated, after_all-keeps}

All-concat :
    {A : Type 0} (P : A → Type 0) (xs : List A) (x : A) → All P xs → P x → All P (xs ++ x ∷ [])
All-concat P [] x a p = (p, tt)
All-concat P (y ∷ ys) x (q, a) p = (q, All-concat P ys x a p)

All-find_artifact :
    (P : ArtifactRow → Type 0) (id : String) (rows : List ArtifactRow) {row : ArtifactRow}
    → All P rows
    → find_artifact id rows ≡ some row
    → P row
unfolding find_artifact
All-find_artifact P id [] a e = absurd (ground arith)
All-find_artifact P id (r ∷ rs) {row} (p, a) e = elim (Bool-cases (str_eq r.artifact_id id)) [
  | inl same ↦ let q : some r ≡ some row = rw same at e in subst P (cc q) p
  | inr other ↦ All-find_artifact P id rs a (rw other at e)
]

module _ (h : Hashes) where
  abbrev pub AreReadable : Db → Type 0
  AreReadable db = All (IsReadable h) db.artifacts

  AreReadable-KeptByInserts : KeptByInserts h AreReadable
  AreReadable-KeptByInserts = record {
    by_artifact =
        λ r i. insert_artifact-Preserves r (λ db a. All-concat (IsReadable h) db.artifacts r a i);
    by_event = λ kind i a t d _. append_event-Preserves h kind i a t d (λ e db p. p);
    by_baseline = λ r. insert_baseline-Preserves r (λ db c. c);
    by_comparison = λ r. insert_or_ignore_comparison-Preserves r (λ db c. c);
    by_amendment = λ r. insert_amendment-Preserves r (λ db c. c);
    by_decision = λ r. insert_platform_decision-Preserves r (λ db c. c);
    by_certification = λ r. insert_certification-Preserves r (λ db c. c);
  }

  pub get_artifact-IsReadable :
      (id : String) (db : Db) (row : ArtifactRow)
      → find_artifact id db.artifacts ≡ some row
      → IsReadable h row
      → get_artifact h id db ≡ (ok (row.columns, h.loads row.payload_json), db)
  unfolding get_artifact ◌>>=◌
  get_artifact-IsReadable id db row f i = rw (f, i.dated, (eq_iff _ _).1 i.intact)

  -- With lawful hashes, after any calls with canonical timestamps on an empty store, every artifact
  -- that is there is read back with the columns and the payload of its row, and the payload has the
  -- row's digest.
  pub get_artifact-after_all :
      AreLawful h
      → (cs : List Call) (id : String) (row : ArtifactRow) → All (IsDated h) cs
      → find_artifact id (after_all h cs empty_db).artifacts ≡ some row
      → (get_artifact h id (after_all h cs empty_db)
          ≡ (ok (row.columns, h.loads row.payload_json), after_all h cs empty_db))
        × (h.canonical_digest (h.loads row.payload_json) ≡ row.payload_digest)
  get_artifact-after_all law cs id row d f =
      let db = after_all h cs empty_db in
      let i =
        All-find_artifact (IsReadable h) id db.artifacts
          (after_all-keeps h law AreReadable-KeptByInserts cs empty_db d tt) f in
      (get_artifact-IsReadable id db row f i, i.intact)
