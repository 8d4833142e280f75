-- ===== src/Runtime/Contained.antt =====
-- What a live run that passed the checks cannot do.
use atlas_db_agent.Prelude.{
  Bool, true, false, ◌&&◌, ◌||◌, String, Option, some, ◌≡◌, refl, arith, str_eq, any,
}
use atlas_db_agent.Values.{Hashes}
use atlas_db_agent.Runtime.Kinds.{
  LiveVerificationEligibility, TransactionOwnership, executor_owned, caller_controlled,
  procedure_controlled, mixed, unknown_owner, ParseOutcome, ProcedureAst, SemanticResult,
  Assessment, Texts,
}
use atlas_db_agent.Runtime.Safety.{
  is_commit, is_unresolved_call, is_unresolved_site, is_complete, commit_on_return_of,
  eligibility_of, assessment_of,
}
use atlas_db_agent.Runtime.Executor.{
  passed, SandboxConfig, Invocation, Plan, is_missing, is_prohibited, needs_approval, may_escape,
  check_live, is_executor_owned,
}
use atlas_db_agent.Runtime.Assessed.{
  IsContained, live_eligibility-assessment_of, transaction_ownership-executor_owned,
}

owned : (a : Assessment) → may_escape a ≡ false → a.transaction_ownership ≡ executor_owned
unfolding may_escape
owned a e = owner a.transaction_ownership (ground arith)
  where
    owner : (o : TransactionOwnership) → is_executor_owned o ≡ true → o ≡ executor_owned
    owner executor_owned e = refl
    owner caller_controlled e = absurd (ground arith)
    owner procedure_controlled e = absurd (ground arith)
    owner mixed e = absurd (ground arith)
    owner unknown_owner e = absurd (ground arith)

not_prohibited :
    (complete commits on_return calls dynamic missing : Bool) (e : LiveVerificationEligibility)
    → e ≡ eligibility_of complete commits on_return calls dynamic
    → is_prohibited e ≡ false
    → (needs_approval e && missing) ≡ false
    → (complete ≡ true)
      × (commits ≡ false)
      × (on_return ≡ false)
      × (((calls || dynamic) && missing) ≡ false)
unfolding eligibility_of
not_prohibited complete commits on_return calls dynamic missing e q p n =
    let p' = rw q at p in
    let n' = rw q at n in (ground arith, ground arith, ground arith, ground arith)

module _ (h : Hashes) (t : Texts) (plan : Plan) (invocation : Invocation) (config : SandboxConfig)
    (given : Option LiveVerificationEligibility) where
  check_live-eligibility :
      (a : Assessment)
      → check_live h t plan invocation config (some a) given ≡ passed
      → (is_prohibited a.live_eligibility ≡ false)
        × ((needs_approval a.live_eligibility && is_missing config.manual_approval_ref) ≡ false)
  unfolding check_live
  check_live-eligibility a e = (ground arith, ground arith)

  check_live-may_escape :
      (a : Assessment)
      → check_live h t plan invocation config (some a) given ≡ passed
      → config.rollback_after_call ≡ false
      → may_escape a ≡ false
  unfolding check_live
  check_live-may_escape a e r = let e' = rw r at e in ground arith

  module _ (outcome : ParseOutcome) (ast : ProcedureAst) (s : SemanticResult) (id : String) where
    -- When the checks pass with the assessment of a procedure, its parse is complete, no effect is
    -- a COMMIT and COMMIT ON RETURN is not YES; and when a call or a dynamic statement is
    -- unresolved, the configuration names an approval.
    pub check_live-assessment_of :
        check_live h t plan invocation config (some (assessment_of h t outcome ast s id)) given
          ≡ passed
        → (is_complete outcome ≡ true)
          × (any is_commit s.effects ≡ false)
          × (str_eq (commit_on_return_of h t ast) "YES" ≡ false)
          × (((any is_unresolved_call s.effects || any is_unresolved_site s.dynamic_sql_sites)
                && is_missing config.manual_approval_ref)
              ≡ false)
    check_live-assessment_of e =
        let (p, n) = check_live-eligibility _ e in
        not_prohibited _ _ _ _ _ _ _ (live_eligibility-assessment_of h t outcome ast s id) p n

    -- When the checks pass with the assessment of a procedure for a run that keeps its changes, the
    -- procedure is contained (the parse is complete, no effect is a COMMIT, COMMIT ON RETURN is not
    -- YES, no call and no dynamic statement is unresolved), and its COMMIT ON RETURN is NO.
    pub check_live-IsContained :
        check_live h t plan invocation config (some (assessment_of h t outcome ast s id)) given
          ≡ passed
        → config.rollback_after_call ≡ false
        → IsContained h t outcome ast s × (str_eq (commit_on_return_of h t ast) "NO" ≡ true)
    check_live-IsContained e r =
        let m = check_live-may_escape _ e r in
        let (p, _, _, _) = check_live-assessment_of e in
        let (c, y, n, l, d) =
          transaction_ownership-executor_owned h t outcome ast s id (owned _ m) in
        (record { parsed = p; no_commit = c; returns = y; no_call = l; no_site = d }, n)
