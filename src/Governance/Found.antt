-- ===== src/Governance/Found.antt =====
-- The row that was inserted is the one that is found under its identifier.
use atlas_db_agent.Prelude.{
  String, Option, refl, inl, inr, Bool-cases, none, some, true, List, [], ◌∷◌, ◌++◌, ◌≡◌, arith,
  str_eq,
}
use atlas_db_agent.Governance.Rows.{ArtifactRow}
use atlas_db_agent.Governance.Tables.{find_artifact, is_some, parent_known}

pub find_artifact-concat :
    (id : String) (rows : List ArtifactRow) (r : ArtifactRow)
    → find_artifact id rows ≡ none
    → str_eq r.artifact_id id ≡ true
    → find_artifact id (rows ++ r ∷ []) ≡ some r
unfolding find_artifact
find_artifact-concat id [] r n e = rw e
find_artifact-concat id (q ∷ rows) r n e = ground (arith, find_artifact-concat id rows r)

is_some-found :
    (id : String) (rows : List ArtifactRow) (r : ArtifactRow)
    → is_some (find_artifact id rows) ≡ true
    → is_some (find_artifact id (rows ++ r ∷ [])) ≡ true
unfolding find_artifact
is_some-found id [] r e = absurd (ground (arith, e))
is_some-found id (q ∷ rows) r e = elim (Bool-cases (str_eq q.artifact_id id)) [
  | inl t ↦ rw t refl
  | inr f ↦ rw f (is_some-found id rows r (rw f at e))
]

-- A parent that is there stays there.
pub parent_known-concat :
    (parent : Option String) (rows : List ArtifactRow) (r : ArtifactRow)
    → parent_known parent rows ≡ true
    → parent_known parent (rows ++ r ∷ []) ≡ true
parent_known-concat none rows r e = refl
parent_known-concat (some p) rows r e = is_some-found p rows r e
