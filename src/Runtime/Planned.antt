-- ===== src/Runtime/Planned.antt =====
-- What a plan expects, and when it may run live.
use atlas_db_agent.Prelude.{
  ◌≡◌, refl, sym, ap, ◌∙◌, subst, ◌↔◌, inl, inr, Bool, true, false, String, none, some, List, [],
  ◌∷◌, ◌++◌, Has, arith, nonempty, Option-cases, if◌then◌else◌,
}
use atlas_db_agent.Prelude.Members.{Has-sort}
use atlas_db_agent.Prelude.Texts.{str_le}
use atlas_db_agent.Values.{Hashes}
use atlas_db_agent.Runtime.Kinds.{
  ParseOutcome, ProcedureAst, SemanticResult, Texts, ready_db2_sandbox, blocked,
  LiveVerificationEligibility, prohibited, manual_approval_required, db2_sandbox_allowed,
}
use atlas_db_agent.Runtime.Safety.{assessment_of}
use atlas_db_agent.Runtime.Assessed.{IsContained, assessment_of-IsContained}
use atlas_db_agent.Runtime.Verify.Records.{ExpectedObservation}
use atlas_db_agent.Runtime.Planning.{
  Literals, PlannedEffect, ScenarioEffect, Scenario, Parameter, expectation_of, effect_for,
  observed_effects, expectations, status_for, plan_of,
}

module _ (h : Hashes) (l : Literals) where
  Has-observed_effects :
      (effects : List PlannedEffect) (ss : List ScenarioEffect) (x : ExpectedObservation)
      → Has x (observed_effects h l effects ss) ↔ (
          (s : ScenarioEffect) × (e : PlannedEffect) × Has s ss
          × (effect_for h l effects s.effect_ref ≡ some e)
          × (expectation_of h l s e ≡ x))
  unfolding observed_effects
  Has-observed_effects effects [] x = (λ k. absurd k, λ (s, e, k, _, _). absurd k)
  Has-observed_effects effects (s ∷ ss) x =
      let (to, from) = Has-observed_effects effects ss x in
      elim (Option-cases (effect_for h l effects s.effect_ref)) [
        | inl n ↦
            rw (n, observed_effects)
              (
                λ k. let (r, e, m, q, p) = to k in (r, e, inr m, q, p),
                λ (r, e, m, q, p). elim m [
                  | inl same ↦ absurd (
                      ground (
                        arith,
                        sym (subst (λ y. effect_for h l effects y.effect_ref ≡ none) same n) ∙ q,
                      ))
                  | inr k ↦ from (r, e, k, q, p)
                ],
              )
        | inr (e, known) ↦
            rw (known, observed_effects)
              (
                elim [
                  | inl p ↦ (s, e, inl refl, known, p)
                  | inr k ↦ let (r, f, m, q, p) = to k in (r, f, inr m, q, p)
                ],
                λ (r, f, m, q, p). elim m [
                  | inl same ↦
                      let both : some e ≡ some f =
                        sym (subst (λ y. effect_for h l effects y.effect_ref ≡ some e) same known)
                        ∙ q in
                      let e_is : e ≡ f = cc both in
                      inl (
                        ap (λ y. expectation_of h l y e) same
                        ∙ ap (λ y. expectation_of h l r y) e_is
                        ∙ p)
                  | inr k ↦ inr (from (r, f, k, q, p))
                ],
              )
      ]

  -- A plan expects exactly the effects of the scenario, the expected and the alternative ones, that
  -- the analysis knows, each by its reference.
  pub expectations-Has :
      (effects : List PlannedEffect) (spec : Scenario) (x : ExpectedObservation)
      → Has x (expectations h l effects spec) ↔ (
          (s : ScenarioEffect) × (e : PlannedEffect) × Has s
            (spec.expected_effects ++ spec.alternative_or_conditional_effects)
          × (effect_for h l effects s.effect_ref ≡ some e)
          × (expectation_of h l s e ≡ x))
  unfolding expectations
  expectations-Has effects spec x =
      let all = spec.expected_effects ++ spec.alternative_or_conditional_effects in
      let (unsort, resort) =
        Has-sort (λ a b. str_le a.expectation_id b.expectation_id) x
          (observed_effects h l effects all) in
      let (to, from) = Has-observed_effects effects all x in
      (λ k. to (unsort k), λ k. resort (from k))

  sandbox_status :
      (b : Bool) (e : LiveVerificationEligibility)
      → ((if b then status_for h l e else blocked) ≡ ready_db2_sandbox)
        ↔ ((b ≡ true) × (e ≡ db2_sandbox_allowed))
  sandbox_status true db2_sandbox_allowed = (λ _. (refl, refl), λ _. refl)
  sandbox_status true prohibited =
      (λ e. absurd (ground (arith, e)), λ (_, e). absurd (ground (arith, e)))
  sandbox_status true manual_approval_required =
      (λ e. absurd (ground (arith, e)), λ (_, e). absurd (ground (arith, e)))
  sandbox_status false e = (λ q. absurd (ground (arith, q)), λ (q, _). absurd (ground (arith, q)))

  -- With the static assessment of a procedure, a plan is ready for the sandbox exactly when it
  -- expects something and the procedure is contained: it parses completely, nothing in it commits,
  -- and nothing about it is unresolved.
  pub plan_of-ready :
      (t : Texts) (outcome : ParseOutcome) (ast : ProcedureAst) (s : SemanticResult) (id : String)
      (effects : List PlannedEffect) (parameters : List Parameter) (spec : Scenario)
      → ((plan_of h l effects parameters (assessment_of h t outcome ast s id) spec).plan_status
          ≡ ready_db2_sandbox)
        ↔ ((nonempty (expectations h l effects spec) ≡ true) × IsContained h t outcome ast s)
  unfolding plan_of
  plan_of-ready t outcome ast s id effects parameters spec =
      let (to, from) =
        sandbox_status (nonempty (expectations h l effects spec))
          (assessment_of h t outcome ast s id).live_eligibility in
      let (contained, allowed) = assessment_of-IsContained h t outcome ast s id in
      (λ e. let (x, y) = to e in (x, contained y), λ (x, c). from (x, allowed c))
