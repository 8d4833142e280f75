-- ===== src/Runtime/Verify/Verdicts.antt =====
-- The status of a verification.
use atlas_db_agent.Prelude.{
  Bool, true, false, not, ◌&&◌, ◌||◌, String, List, [], ◌∷◌, ◌++◌, ◌≡◌, refl, arith, ◌∙◌, any,
  nonempty, str_eq, if◌then◌else◌,
}
use atlas_db_agent.Values.{Hashes, object}
use atlas_db_agent.Runtime.Kinds.{Texts}
use atlas_db_agent.Runtime.Verify.{
  EffectModality, must, must_if_caller_contract_holds, may, must_not, unknown_modality,
  ExecutionStatus, succeeded, failed, blocked_execution, VerificationStatus, matched, mismatch,
  inconclusive, blocked, execution_failed, ExpectedObservation, ExecutionRecord, VerificationPlan,
  Finding, ExpectationResult, match_observation, findings_of, is_unknown, result_of, results_of,
  all_findings, conclude, verify_executed, digest_findings, verify_checked, verify,
}

module _ (t : Texts) where
  -- A required effect that is not there, or a prohibited one that is.
  violates : Bool → EffectModality → Bool
  violates hit must = not hit
  violates hit must_not = hit
  violates hit _ = false

  unfoldable pub is_violated : ExecutionRecord → ExpectedObservation → Bool
  unfolding violates
  is_violated e x = violates (match_observation t x e).0 x.modality

  nonempty-findings_of :
      (x : ExpectedObservation) (hit : Bool) (observed : List String) (m : EffectModality)
      → nonempty (findings_of t x hit observed m) ≡ violates hit m
  unfolding findings_of violates
  nonempty-findings_of x true observed must = refl
  nonempty-findings_of x false observed must = refl
  nonempty-findings_of x true observed must_not = refl
  nonempty-findings_of x false observed must_not = refl
  nonempty-findings_of x true observed may = refl
  nonempty-findings_of x false observed may = refl
  nonempty-findings_of x true observed must_if_caller_contract_holds = refl
  nonempty-findings_of x false observed must_if_caller_contract_holds = refl
  nonempty-findings_of x true observed unknown_modality = refl
  nonempty-findings_of x false observed unknown_modality = refl

  nonempty-concat : (fs gs : List Finding) → nonempty (fs ++ gs) ≡ (nonempty fs || nonempty gs)
  nonempty-concat [] gs = refl
  nonempty-concat (f ∷ fs) gs = refl

  nonempty-all_findings :
      (e : ExecutionRecord) (xs : List ExpectedObservation)
      → nonempty (all_findings t (results_of t e xs)) ≡ any (is_violated e) xs
  unfolding all_findings any is_violated result_of
  nonempty-all_findings e [] = refl
  nonempty-all_findings e (x ∷ xs) = rw (
    nonempty-concat (result_of t e x).findings (all_findings t (results_of t e xs)),
    nonempty-findings_of x (match_observation t x e).0 (match_observation t x e).1 x.modality,
    nonempty-all_findings e xs,
  )

  conclude_lem :
      (plan_id : String) (rs : List ExpectationResult) (fs : List Finding) (u : Bool)
      → ((conclude t plan_id rs fs u).verification_status
          ≡ (if nonempty fs then mismatch else if u then inconclusive else matched))
        × ((conclude t plan_id rs fs u).static_runtime_conflict ≡ nonempty fs)
  conclude_lem plan_id rs [] true = (refl, refl)
  conclude_lem plan_id rs [] false = (refl, refl)
  conclude_lem plan_id rs (f ∷ fs) u = (refl, refl)

  -- The status that the expectations alone give to an execution.
  unfoldable pub expected_status :
      ExecutionRecord → List ExpectedObservation → ExecutionStatus → VerificationStatus
  expected_status e xs failed = execution_failed
  expected_status e xs blocked_execution = blocked
  expected_status e xs succeeded =
      if any (is_violated e) xs
      then mismatch
      else if any (λ x. is_unknown t x.modality) xs
      then inconclusive
      else matched

  verify_executed_lem :
      (p : VerificationPlan) (e : ExecutionRecord) (s : ExecutionStatus)
      → (verify_executed t p e s).verification_status ≡ expected_status e p.expected_observations s
  unfolding verify_executed expected_status
  verify_executed_lem p e failed = refl
  verify_executed_lem p e blocked_execution = refl
  verify_executed_lem p e succeeded =
      let rs = results_of t e p.expected_observations in
      (conclude_lem p.plan_id rs (all_findings t rs) _).0
      ∙ rw (nonempty-all_findings e p.expected_observations) refl

module _ (h : Hashes) (t : Texts) where
  checked_lem :
      (p : VerificationPlan) (e : ExecutionRecord) (fs : List Finding)
      → (verify_checked h t p e fs).verification_status ≡ (
          if nonempty fs
          then blocked
          else expected_status t e p.expected_observations e.execution_status)
  checked_lem p e [] = verify_executed_lem t p e e.execution_status
  checked_lem p e (f ∷ fs) = refl

  -- The digests are those of the dumps, and the record refers to the plan.
  unfoldable pub fits : VerificationPlan → ExecutionRecord → Bool
  fits p e =
      str_eq (h.canonical_digest (object p.dump)) p.content_digest
      && str_eq (h.canonical_digest (object e.dump)) e.content_digest
      && str_eq e.plan_ref p.plan_id
      && str_eq e.plan_digest p.content_digest

  nonempty-digest_findings :
      (p : VerificationPlan) (e : ExecutionRecord)
      → nonempty (digest_findings h t p e) ≡ not (fits p e)
  unfolding digest_findings fits
  nonempty-digest_findings p e = ground arith

  -- A verification is blocked when a digest is not that of its dump or the record does not refer to
  -- the plan; else it follows the execution, and for one that succeeded it is a mismatch exactly
  -- when a required effect is missing or a prohibited one is there, else inconclusive when some
  -- effect's modality is unknown, else a match.
  pub verify-expected_status :
      (p : VerificationPlan) (e : ExecutionRecord)
      → (verify h t p e).verification_status ≡ (
          if fits p e
          then expected_status t e p.expected_observations e.execution_status
          else blocked)
  unfolding verify
  verify-expected_status p e =
      checked_lem p e (digest_findings h t p e) ∙ rw (nonempty-digest_findings p e) (ground arith)
