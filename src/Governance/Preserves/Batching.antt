-- ===== src/Governance/Preserves/Batching.antt =====
-- The batch admissions keep a property that every insert keeps.
use atlas_db_agent.Prelude.{Bool, String, some, List, [], ◌∷◌, ◌≡◌}
use atlas_db_agent.Values.{Hashes}
use atlas_db_agent.Governance.Rows.{ArtifactType, StoredArtifact, Db}
use atlas_db_agent.Governance.Session.{Exec}
use atlas_db_agent.Governance.Bindings.{ScenarioSpec}
use atlas_db_agent.Governance.Batches.{
  AdmissionResult, Part, IdentifiedPart, DependentPart, ScenarioBatch, BddBatch, RuntimeBatch,
  newest_scenario, admit_each, scenario_identity, admit_part, admit_identified, admit_dependent,
  admit_spec, admit_scenario_batch, admit_bdd_batch, admit_runtime_batch,
}
use atlas_db_agent.Governance.Preserves.{
  Preserves, Preserves-pure, Preserves-or_raise, Preserves-bind,
}
use atlas_db_agent.Governance.Preserves.Laws.{AreLawful, KeptByInserts}
use atlas_db_agent.Governance.Preserves.Admitting.{admit_model-Preserves, get_artifact-Preserves}

admit_each-Preserves {ℓ} :
    {A : Type 0} {P : Db → Type ℓ} (f : A → Exec (StoredArtifact × Bool))
    → ((a : A) → Preserves P (f a))
    → (parts : List A) (rest : Exec AdmissionResult) → Preserves P rest
    → Preserves P (admit_each f parts rest)
unfolding admit_each
admit_each-Preserves f k [] rest r = r
admit_each-Preserves f k (a ∷ parts) rest r =
    Preserves-bind _ _ (k a)
      λ got. Preserves-bind _ _ (admit_each-Preserves f k parts rest r) λ more. Preserves-pure _

module _ {ℓ} (h : Hashes) (law : AreLawful h) {P : Db → Type ℓ} (k : KeptByInserts h P) where
  scenario_identity-Preserves : (ref : String) → Preserves P (scenario_identity h ref)
  unfolding scenario_identity
  scenario_identity-Preserves ref = record {
    at = λ db p.
        (Preserves-or_raise _ (newest_scenario ref db.artifacts) _ λ row _.
            Preserves-bind _ _ (get_artifact-Preserves h law k row.artifact_id)
              λ got. Preserves-pure got.0).at
          db p;
  }

  module _ (created_at actor_ref : String)
      (t : h.canonical_timestamp created_at ≡ some created_at) where
    admit_part-Preserves :
        (kind : ArtifactType) (parent : String) (p : Part)
        → Preserves P (admit_part h created_at actor_ref kind parent p)
    unfolding admit_part
    admit_part-Preserves kind parent p = admit_model-Preserves h law k p.model _ t

    admit_identified-Preserves :
        (kind : ArtifactType) (parent : String) (p : IdentifiedPart)
        → Preserves P (admit_identified h created_at actor_ref kind parent p)
    unfolding admit_identified
    admit_identified-Preserves kind parent p = admit_model-Preserves h law k p.model _ t

    admit_dependent-Preserves :
        (kind : ArtifactType) (parent : String) (p : DependentPart)
        → Preserves P (admit_dependent h created_at actor_ref kind parent p)
    unfolding admit_dependent
    admit_dependent-Preserves kind parent p =
        Preserves-bind _ _ (scenario_identity-Preserves p.scenario_spec_ref)
          λ identity. admit_model-Preserves h law k p.model _ t

    admit_spec-Preserves :
        (parent : String) (s : ScenarioSpec)
        → Preserves P (admit_spec h created_at actor_ref parent s)
    unfolding admit_spec
    admit_spec-Preserves parent s = admit_model-Preserves h law k s.model _ t

    pub admit_scenario_batch-Preserves :
        (b : ScenarioBatch) → Preserves P (admit_scenario_batch h created_at actor_ref b)
    unfolding admit_scenario_batch
    admit_scenario_batch-Preserves b =
        Preserves-bind _ _ (admit_model-Preserves h law k b.model _ t) λ got.
          Preserves-bind _ _
            (admit_each-Preserves _ (admit_part-Preserves _ _) _ _ (
              admit_each-Preserves _ (admit_part-Preserves _ _) _ _ (
                admit_each-Preserves _ (admit_part-Preserves _ _) _ _ (
                  admit_each-Preserves _ (admit_part-Preserves _ _) _ _
                    (admit_each-Preserves _ (admit_spec-Preserves _) _ _ (Preserves-pure _))))))
            λ rest. Preserves-pure _

    pub admit_bdd_batch-Preserves :
        (b : BddBatch) → Preserves P (admit_bdd_batch h created_at actor_ref b)
    unfolding admit_bdd_batch
    admit_bdd_batch-Preserves b =
        Preserves-bind _ _ (admit_model-Preserves h law k b.model _ t) λ got.
          Preserves-bind _ _
            (admit_each-Preserves _ (admit_identified-Preserves _ _) _ _ (
              admit_each-Preserves _ (admit_identified-Preserves _ _) _ _
                (admit_each-Preserves _ (admit_dependent-Preserves _ _) _ _ (Preserves-pure _))))
            λ rest. Preserves-pure _

    pub admit_runtime_batch-Preserves :
        (b : RuntimeBatch) → Preserves P (admit_runtime_batch h created_at actor_ref b)
    unfolding admit_runtime_batch
    admit_runtime_batch-Preserves b =
        Preserves-bind _ _ (admit_model-Preserves h law k b.model _ t) λ got.
          Preserves-bind _ _
            (admit_each-Preserves _ (admit_part-Preserves _ _) _ _
              (admit_each-Preserves _ (admit_dependent-Preserves _ _) _ _ (Preserves-pure _)))
            λ rest. Preserves-pure _
