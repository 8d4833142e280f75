-- ===== src/Runtime/Assessed.antt =====
-- What the assessment says of the analysed effects.
use atlas_db_agent.Prelude.{
  Bool, true, false, String, ◌≡◌, refl, arith, sym, ◌∙◌, ◌↔◌, str_eq, any, nonempty,
}
use atlas_db_agent.Prelude.Sorting.{nonempty-sort, nonempty-sort-collect}
use atlas_db_agent.Values.{Hashes}
use atlas_db_agent.Runtime.Kinds.{
  db2_sandbox_allowed, TransactionOwnership, executor_owned, caller_controlled,
  procedure_controlled, mixed, unknown_owner, rollback_safe, ParseOutcome, ProcedureAst,
  SemanticResult, Assessment, Texts,
}
use atlas_db_agent.Runtime.Safety.{
  is_commit, is_rollback, is_unresolved_call, is_unresolved_site, is_complete, commit_on_return_of,
  reasons_of, eligibility_of, ownership_of, containment_of, assessment_of,
}

eligibility_of_allowed :
    (complete commits on_return calls dynamic : Bool)
    → eligibility_of complete commits on_return calls dynamic ≡ db2_sandbox_allowed
    → (complete ≡ true)
      × (commits ≡ false)
      × (on_return ≡ false)
      × (calls ≡ false)
      × (dynamic ≡ false)
unfolding eligibility_of
eligibility_of_allowed complete commits on_return calls dynamic e =
    (ground arith, ground arith, ground arith, ground arith, ground arith)

allowed_of :
    {complete commits on_return calls dynamic : Bool}
    → complete ≡ true
    → commits ≡ false
    → on_return ≡ false
    → calls ≡ false
    → dynamic ≡ false
    → eligibility_of complete commits on_return calls dynamic ≡ db2_sandbox_allowed
unfolding eligibility_of
allowed_of p c r l d = rw (p, c, r, l, d) refl

reasons_of_empty :
    (complete commits on_return calls dynamic : Bool)
    → nonempty (reasons_of complete commits on_return calls dynamic) ≡ false
    → (complete ≡ true)
      × (commits ≡ false)
      × (on_return ≡ false)
      × (calls ≡ false)
      × (dynamic ≡ false)
unfolding reasons_of
reasons_of_empty complete commits on_return calls dynamic e =
    (ground arith, ground arith, ground arith, ground arith, ground arith)

empty_of :
    {complete commits on_return calls dynamic : Bool}
    → complete ≡ true
    → commits ≡ false
    → on_return ≡ false
    → calls ≡ false
    → dynamic ≡ false
    → nonempty (reasons_of complete commits on_return calls dynamic) ≡ false
unfolding reasons_of
empty_of p c r l d = rw (p, c, r, l, d) refl

-- The executor owns the work exactly when nothing commits and nothing is unresolved, and a
-- rollback is safe exactly then.
owned_of :
    (commits rollbacks on_return never calls dynamic : Bool)
    → ownership_of commits rollbacks on_return never calls dynamic ≡ executor_owned
    → (commits ≡ false) × (on_return ≡ false) × (never ≡ true) × (calls ≡ false) × (dynamic ≡ false)
unfolding ownership_of
owned_of commits rollbacks on_return never calls dynamic e =
    (ground arith, ground arith, ground arith, ground arith, ground arith)

safe_of_owned :
    (commits on_return calls dynamic : Bool) (o : TransactionOwnership)
    → (commits ≡ false) × (on_return ≡ false) × (calls ≡ false) × (dynamic ≡ false)
    → (o ≡ executor_owned)
    → containment_of commits on_return calls dynamic o ≡ rollback_safe
unfolding containment_of
safe_of_owned commits on_return calls dynamic o (c, r, l, d) e = rw (c, r, l, d, e)

safe_owned :
    (commits on_return calls dynamic : Bool) (o : TransactionOwnership)
    → containment_of commits on_return calls dynamic o ≡ rollback_safe
    → o ≡ executor_owned
unfolding containment_of
safe_owned commits on_return calls dynamic executor_owned e = refl
safe_owned commits on_return calls dynamic caller_controlled e = absurd (ground arith)
safe_owned commits on_return calls dynamic procedure_controlled e = absurd (ground arith)
safe_owned commits on_return calls dynamic mixed e = absurd (ground arith)
safe_owned commits on_return calls dynamic unknown_owner e = absurd (ground arith)

module _ (h : Hashes) (t : Texts) (outcome : ParseOutcome) (ast : ProcedureAst) where
  -- The analysed procedure has no commit of its own, and nothing about it is unresolved.
  pub record IsContained (s : SemanticResult) : Type 0 where
    pub parsed : is_complete outcome ≡ true
    pub no_commit : any is_commit s.effects ≡ false
    pub returns : str_eq (commit_on_return_of h t ast) "YES" ≡ false
    pub no_call : any is_unresolved_call s.effects ≡ false
    pub no_site : any is_unresolved_site s.dynamic_sql_sites ≡ false

  module _ (s : SemanticResult) (id : String) where
    abbrev assessed : Assessment
    assessed = assessment_of h t outcome ast s id

    pub live_eligibility-assessment_of :
        assessed.live_eligibility
        ≡ eligibility_of
            (is_complete outcome)
            (any is_commit s.effects)
            (str_eq (commit_on_return_of h t ast) "YES")
            (any is_unresolved_call s.effects)
            (any is_unresolved_site s.dynamic_sql_sites)
    unfolding assessment_of
    live_eligibility-assessment_of =
        rw (nonempty-sort-collect, nonempty-sort-collect, nonempty-sort-collect)

    -- A live run is allowed without an approval exactly when the parse is complete, no effect is
    -- a COMMIT, COMMIT ON RETURN is not YES, and no call and no dynamic statement is unresolved.
    pub assessment_of-IsContained :
        (assessed.live_eligibility ≡ db2_sandbox_allowed) ↔ IsContained s
    assessment_of-IsContained = (
      λ e.
          let (p, c, r, l, d) =
            eligibility_of_allowed _ _ _ _ _ (sym live_eligibility-assessment_of ∙ e) in
          record { parsed = p; no_commit = c; returns = r; no_call = l; no_site = d },
      λ c.
          live_eligibility-assessment_of
          ∙ allowed_of (c.parsed) c.no_commit c.returns c.no_call c.no_site,
    )

    nonempty-reason_codes :
        nonempty assessed.reason_codes
        ≡ nonempty (
            reasons_of
              (is_complete outcome)
              (any is_commit s.effects)
              (str_eq (commit_on_return_of h t ast) "YES")
              (any is_unresolved_call s.effects)
              (any is_unresolved_site s.dynamic_sql_sites))
    unfolding assessment_of
    nonempty-reason_codes =
        rw (nonempty-sort, nonempty-sort-collect, nonempty-sort-collect, nonempty-sort-collect)

    -- No reason code is given exactly when the parse is complete, no effect is a COMMIT, COMMIT ON
    -- RETURN is not YES, and no call and no dynamic statement is unresolved.
    pub reason_codes-IsContained : (nonempty assessed.reason_codes ≡ false) ↔ IsContained s
    unfolding assessment_of
    reason_codes-IsContained = (
      λ e.
          let (p, c, r, l, d) = reasons_of_empty _ _ _ _ _ (sym nonempty-reason_codes ∙ e) in
          record { parsed = p; no_commit = c; returns = r; no_call = l; no_site = d },
      λ c. nonempty-reason_codes ∙ empty_of c.parsed c.no_commit c.returns c.no_call c.no_site,
    )

    ownership-assessment_of :
        (b : Bool) × (assessed.transaction_ownership
          ≡ ownership_of
              (any is_commit s.effects)
              b
              (str_eq (commit_on_return_of h t ast) "YES")
              (str_eq (commit_on_return_of h t ast) "NO")
              (any is_unresolved_call s.effects)
              (any is_unresolved_site s.dynamic_sql_sites))
        × (assessed.rollback_containment
            ≡ containment_of
                (any is_commit s.effects)
                (str_eq (commit_on_return_of h t ast) "YES")
                (any is_unresolved_call s.effects)
                (any is_unresolved_site s.dynamic_sql_sites)
                assessed.transaction_ownership)
    unfolding assessment_of
    ownership-assessment_of = (
      any is_rollback s.effects,
      rw (
        nonempty-sort-collect, nonempty-sort-collect, nonempty-sort-collect, nonempty-sort-collect,
      ),
      rw (
        nonempty-sort-collect, nonempty-sort-collect, nonempty-sort-collect, nonempty-sort-collect,
      ),
    )

    -- The assessed transaction is owned by the executor exactly when its rollback is safe.
    pub executor_owned-rollback_safe :
        (assessed.transaction_ownership ≡ executor_owned)
        ↔ (assessed.rollback_containment ≡ rollback_safe)
    executor_owned-rollback_safe =
        let (b, o, c) = ownership-assessment_of in
        (
          λ e.
              let (k, r, n, l, d) = owned_of _ b _ _ _ _ (sym o ∙ e) in
              c ∙ safe_of_owned _ _ _ _ _ (k, r, l, d) e,
          λ e. safe_owned _ _ _ _ _ (sym c ∙ e),
        )

    pub transaction_ownership-executor_owned :
        assessed.transaction_ownership ≡ executor_owned
        → (any is_commit s.effects ≡ false)
          × (str_eq (commit_on_return_of h t ast) "YES" ≡ false)
          × (str_eq (commit_on_return_of h t ast) "NO" ≡ true)
          × (any is_unresolved_call s.effects ≡ false)
          × (any is_unresolved_site s.dynamic_sql_sites ≡ false)
    transaction_ownership-executor_owned e =
        let (b, o, c) = ownership-assessment_of in owned_of _ b _ _ _ _ (sym o ∙ e)
