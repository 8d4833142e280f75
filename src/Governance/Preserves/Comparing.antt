-- ===== src/Governance/Preserves/Comparing.antt =====
-- `register_baseline` and `compare_to_baseline` keep a property that every insert keeps.
use atlas_db_agent.Prelude.{Bool, true, false, String, Option, none, some, ◌≡◌, refl}
use atlas_db_agent.Values.{Hashes}
use atlas_db_agent.Governance.Rows.{Baseline, Comparison, Db}
use atlas_db_agent.Governance.Session.{pure}
use atlas_db_agent.Governance.Baselines.{
  registration, store_baseline, baseline_session, register_baseline,
}
use atlas_db_agent.Governance.Comparisons.{
  verdict, comparison_of, comparison_session, select_baseline, compare_to_baseline,
}
use atlas_db_agent.Governance.Preserves.{
  Preserves, Preserves-of_reads, Preserves-pure, Preserves-or_raise, Preserves-session,
  Preserves-bind,
}
use atlas_db_agent.Governance.Preserves.Laws.{AreLawful, KeptByInserts}
use atlas_db_agent.Governance.Preserves.Admitting.{get_artifact-Preserves, ensure-Preserves}

module _ {ℓ} (h : Hashes) (law : AreLawful h) {P : Db → Type ℓ} (k : KeptByInserts h P) where
  store_baseline-Preserves :
      (b : Baseline) (actor_ref : String) (known : Bool)
      → h.canonical_timestamp b.effective_from ≡ some b.effective_from
      → Preserves P (store_baseline h b actor_ref known)
  unfolding store_baseline
  store_baseline-Preserves b actor_ref true t = Preserves-pure tt
  store_baseline-Preserves b actor_ref false t =
      Preserves-bind _ _ (k.by_baseline b)
        λ _. Preserves-bind _ _ (k.by_event _ _ _ _ _ t) λ _. Preserves-pure tt

  baseline_session-Preserves :
      (b : Baseline) (actor_ref : String)
      → h.canonical_timestamp b.effective_from ≡ some b.effective_from
      → Preserves P (baseline_session h b actor_ref)
  unfolding baseline_session
  baseline_session-Preserves b actor_ref t = record {
    at = λ db p.
        (Preserves-bind _ _ (ensure-Preserves h law k _ _)
            (λ known. store_baseline-Preserves b actor_ref known t)).at
          db p;
  }

  pub register_baseline-Preserves :
      (artifact_id authority_ref effective_from actor_ref : String)
      → Preserves P (register_baseline h artifact_id authority_ref effective_from actor_ref)
  unfolding register_baseline registration
  register_baseline-Preserves artifact_id authority_ref effective_from actor_ref =
      Preserves-bind _ _ (get_artifact-Preserves h law k artifact_id) λ got.
        Preserves-or_raise _ _ _ λ b _. Preserves-or_raise _ _ _ λ t e.
          Preserves-bind _ _
            (Preserves-session _
              (baseline_session-Preserves _ actor_ref (law.timestamp_idem effective_from t e)))
            λ _. Preserves-pure _

  verdict-Preserves :
      (signature : String) (b : Option Baseline) → Preserves P (verdict h signature b)
  unfolding verdict
  verdict-Preserves signature none = Preserves-pure _
  verdict-Preserves signature (some b) =
      Preserves-bind _ _ (get_artifact-Preserves h law k b.artifact_id) (λ got. Preserves-pure _)

  comparison_session-Preserves :
      (c : Comparison) (actor_ref : String)
      → h.canonical_timestamp c.compared_at ≡ some c.compared_at
      → Preserves P (comparison_session h c actor_ref)
  unfolding comparison_session
  comparison_session-Preserves c actor_ref t =
      Preserves-bind _ _ (k.by_comparison c)
        λ _. Preserves-bind _ _ (k.by_event _ _ _ _ _ t) λ _. Preserves-pure tt

  select_baseline-Preserves : (behavior at : String) → Preserves P (select_baseline h behavior at)
  unfolding select_baseline
  select_baseline-Preserves behavior at = Preserves-of_reads _ (λ db. unfold pure in refl)

  pub compare_to_baseline-Preserves :
      (candidate_id compared_at actor_ref : String)
      → Preserves P (compare_to_baseline h candidate_id compared_at actor_ref)
  unfolding compare_to_baseline comparison_of
  compare_to_baseline-Preserves candidate_id compared_at actor_ref =
      Preserves-bind _ _ (get_artifact-Preserves h law k candidate_id) λ got.
        Preserves-or_raise _ _ _ λ behavior _.
          Preserves-bind _ _ (select_baseline-Preserves behavior compared_at) λ baseline.
            Preserves-bind _ _ (verdict-Preserves _ baseline) λ v.
              Preserves-or_raise _ _ _ λ source _. Preserves-or_raise _ _ _ λ lineage _.
                Preserves-or_raise _ _ _ λ revision _. Preserves-or_raise _ _ _ λ t e.
                  Preserves-bind _ _
                    (Preserves-session _ (
                      comparison_session-Preserves _ actor_ref
                        (law.timestamp_idem compared_at t e)))
                    λ _. Preserves-pure _
