-- ===== src/Governance/Preserves/Binding.antt =====
-- `amend_scenario_spec` and the two bindings keep a property that every insert keeps.
use atlas_db_agent.Prelude.{Bool, true, false, String, some, ◌≡◌}
use atlas_db_agent.Values.{Hashes}
use atlas_db_agent.Governance.Rows.{Amendment, PlatformDecision, Certification, Db}
use atlas_db_agent.Governance.Bindings.{
  ScenarioSpec, amendment_of, amendment_session, amend_scenario_spec, store_decision,
  decision_session, bind_platform_decision, store_certification, certification_session,
  bind_certification,
}
use atlas_db_agent.Governance.Preserves.{
  Preserves, Preserves-pure, Preserves-or_raise, Preserves-require, Preserves-session,
  Preserves-bind,
}
use atlas_db_agent.Governance.Preserves.Laws.{AreLawful, KeptByInserts}
use atlas_db_agent.Governance.Preserves.Admitting.{
  get_artifact-Preserves, validate_content_digest-Preserves, admit_model-Preserves,
  ensure-Preserves,
}

module _ {ℓ} (h : Hashes) (law : AreLawful h) {P : Db → Type ℓ} (k : KeptByInserts h P) where
  amendment_session-Preserves :
      (a : Amendment) (editor_ref : String)
      → h.canonical_timestamp a.amended_at ≡ some a.amended_at
      → Preserves P (amendment_session h a editor_ref)
  unfolding amendment_session
  amendment_session-Preserves a editor_ref t =
      Preserves-bind _ _ (k.by_amendment a)
        λ _. Preserves-bind _ _ (k.by_event _ _ _ _ _ t) λ _. Preserves-pure tt

  -- `amended_at` is the `created_at` of the admission.
  pub amend_scenario_spec-Preserves :
      (original_id : String) (spec : ScenarioSpec) (editor_ref reason amended_at : String)
      → h.canonical_timestamp amended_at ≡ some amended_at
      → Preserves P (amend_scenario_spec h original_id spec editor_ref reason amended_at)
  unfolding amend_scenario_spec amendment_of
  amend_scenario_spec-Preserves original_id spec editor_ref reason amended_at t =
      Preserves-bind _ _ (get_artifact-Preserves h law k original_id) λ got.
        Preserves-bind _ _ (Preserves-require _ _) λ _.
          Preserves-bind _ _ (Preserves-require _ _) λ _.
            Preserves-bind _ _ (Preserves-require _ _) λ _.
              Preserves-bind _ _ (Preserves-require _ _) λ _.
                Preserves-bind _ _ (admit_model-Preserves h law k spec.model _ t) λ admitted.
                  Preserves-or_raise _ _ _ λ stored e.
                    Preserves-bind _ _
                      (Preserves-session _ (
                        amendment_session-Preserves _ editor_ref
                          (law.timestamp_idem amended_at stored e)))
                      λ _. Preserves-pure _

  store_decision-Preserves :
      (e : PlatformDecision) (known : Bool)
      → h.canonical_timestamp e.effective_at ≡ some e.effective_at
      → Preserves P (store_decision h e known)
  unfolding store_decision
  store_decision-Preserves e true t = Preserves-pure tt
  store_decision-Preserves e false t =
      Preserves-bind _ _ (k.by_decision e)
        λ _. Preserves-bind _ _ (k.by_event _ _ _ _ _ t) λ _. Preserves-pure tt

  decision_session-Preserves :
      (e : PlatformDecision)
      → h.canonical_timestamp e.effective_at ≡ some e.effective_at
      → Preserves P (decision_session h e)
  unfolding decision_session
  decision_session-Preserves e t = record {
    at = λ db p.
        (Preserves-bind _ _ (ensure-Preserves h law k _ _)
            (λ known. store_decision-Preserves e known t)).at
          db p;
  }

  -- The envelope's own timestamp is canonical, as its model makes it.
  pub bind_platform_decision-Preserves :
      (e : PlatformDecision)
      → h.canonical_timestamp e.effective_at ≡ some e.effective_at
      → Preserves P (bind_platform_decision h e)
  unfolding bind_platform_decision
  bind_platform_decision-Preserves e t =
      Preserves-bind _ _ (validate_content_digest-Preserves h law k _) λ _.
        Preserves-bind _ _ (get_artifact-Preserves h law k _) λ got.
          Preserves-bind _ _ (Preserves-require _ _)
            λ _. Preserves-session _ (decision_session-Preserves e t)

  store_certification-Preserves :
      (e : Certification) (known : Bool)
      → h.canonical_timestamp e.valid_from ≡ some e.valid_from
      → Preserves P (store_certification h e known)
  unfolding store_certification
  store_certification-Preserves e true t = Preserves-pure tt
  store_certification-Preserves e false t =
      Preserves-bind _ _ (k.by_certification e)
        λ _. Preserves-bind _ _ (k.by_event _ _ _ _ _ t) λ _. Preserves-pure tt

  certification_session-Preserves :
      (e : Certification)
      → h.canonical_timestamp e.valid_from ≡ some e.valid_from
      → Preserves P (certification_session h e)
  unfolding certification_session
  certification_session-Preserves e t = record {
    at = λ db p.
        (Preserves-bind _ _ (ensure-Preserves h law k _ _)
            (λ known. store_certification-Preserves e known t)).at
          db p;
  }

  pub bind_certification-Preserves :
      (e : Certification)
      → h.canonical_timestamp e.valid_from ≡ some e.valid_from
      → Preserves P (bind_certification h e)
  unfolding bind_certification
  bind_certification-Preserves e t =
      Preserves-bind _ _ (validate_content_digest-Preserves h law k _) λ _.
        Preserves-bind _ _ (get_artifact-Preserves h law k _) λ got.
          Preserves-bind _ _ (Preserves-require _ _)
            λ _. Preserves-session _ (certification_session-Preserves e t)
