-- ===== src/Runtime/Reconciled.antt =====
-- What a reconciliation reports.
use atlas_db_agent.Prelude.{
  suc, ◌+◌, ◌≡◌, refl, sym, ap, ◌∙◌, subst, ◌↔◌, inl, inr, Bool, true, false, ◌&&◌, none, some,
  String, List, [], ◌∷◌, Has, map, collect, any, length, str_eq, arith, Bool-cases, if◌then◌else◌,
}
use atlas_db_agent.Prelude.Sorting.{sort}
use atlas_db_agent.Prelude.Texts.{str_le}
use atlas_db_agent.Prelude.Members.{Has-collect, Has-map, Has-sort, length-sort}
use atlas_db_agent.Values.{Hashes, object}
use atlas_db_agent.Runtime.Kinds.{Texts}
use atlas_db_agent.Runtime.Verify.{
  ExecutionStatus, succeeded, failed, blocked_execution, mismatch, blocked, VerificationStatus,
  ExecutionRecord, VerificationPlan, ExpectedObservation, is_unknown, verify,
}
use atlas_db_agent.Runtime.Verify.Verdicts.{
  fits, is_violated, expected_status, verify-expected_status,
}
use atlas_db_agent.Runtime.Reconcile.{
  PlanBatch, Verified, Candidate, Report, plan_for, pairs_of, unmatched_of, is_mismatch,
  candidate_of, verify_batch, reconcile,
}
use atlas_db_agent.Runtime.Paired.{length-pairs_of, Has-pairs_of, Has-unmatched_of}

module _ (h : Hashes) (t : Texts) where
  -- A run that succeeded and that violates an expectation of its plan.
  unfoldable pub contradicts : VerificationPlan → ExecutionRecord → Bool
  contradicts p e =
      fits h t p e
      && any (is_violated t e) p.expected_observations
      && elim e.execution_status [ succeeded ↦ true | _ ↦ false ]

  abbrev status_mismatch : VerificationStatus → Bool
  status_mismatch s = elim s [ mismatch ↦ true | _ ↦ false ]

  mismatch_expected :
      (e : ExecutionRecord) (xs : List ExpectedObservation) (s : ExecutionStatus)
      → status_mismatch (expected_status t e xs s)
        ≡ (any (is_violated t e) xs && elim s as (λ _. Bool) [ succeeded ↦ true | _ ↦ false ])
  unfolding expected_status
  mismatch_expected e xs failed = ground arith
  mismatch_expected e xs blocked_execution = ground arith
  mismatch_expected e xs succeeded = elim (Bool-cases (any (is_violated t e) xs)) [
    | inl v ↦ rw v refl
    | inr v ↦ elim (Bool-cases (any (λ x. is_unknown t x.modality) xs)) [
      | inl u ↦ rw (v, u) refl
      | inr u ↦ rw (v, u) refl
    ]
  ]

  mismatch_verified :
      (p : VerificationPlan) (e : ExecutionRecord)
      → status_mismatch (verify h t p e).verification_status ≡ contradicts p e
  unfolding contradicts
  mismatch_verified p e =
      ap status_mismatch (verify-expected_status h t p e) ∙ fit (fits h t p e) refl
    where
      fit :
          (b : Bool)
          → fits h t p e ≡ b
          → status_mismatch (
              if b then expected_status t e p.expected_observations e.execution_status else blocked)
            ≡ (b
                && any (is_violated t e) p.expected_observations
                && elim e.execution_status [ succeeded ↦ true | _ ↦ false ])
      fit true q = mismatch_expected e p.expected_observations e.execution_status
      fit false q = refl

  abbrev pub verified : VerificationPlan → ExecutionRecord → Verified
  verified p e = record { plan = p; execution = e; result = verify h t p e }

  -- What a reconciliation returns, when it does not refuse the batch.
  reconcile-some :
      (batch : PlanBatch) (es : List ExecutionRecord) (vs : List Verified) (r : Report)
      → reconcile h t batch es ≡ some (vs, r)
      → (vs ≡ verify_batch h t (pairs_of batch.plans es))
        × (r.unmatched_execution_refs ≡ sort str_le (unmatched_of batch.plans es))
        × (r.falsification_candidates ≡ collect is_mismatch candidate_of vs)
  unfolding reconcile
  reconcile-some batch es vs r e =
      elim (Bool-cases (str_eq (h.canonical_digest (object batch.dump)) batch.content_digest)) [
        | inl d ↦
            let same = rw (d, reconcile) at e in
            let pair = some_injective same in
            (
              sym (ap (λ x. x.0) pair),
              sym (ap (λ x. x.1.unmatched_execution_refs) pair),
              sym (ap (λ x. x.1.falsification_candidates) pair)
                  ∙ ap (λ x. collect is_mismatch candidate_of x) (ap (λ x. x.0) pair),
            )
        | inr d ↦ absurd (ground (arith, rw (d, reconcile) at e))
      ]
    where
      some_injective : {A : Type 0} {x y : A} → some x ≡ some y → x ≡ y
      some_injective {A} {x} {y} q = ap (λ o. elim o as (λ _. A) [ none ↦ x | some z ↦ z ]) q

  length-reconcile :
      (batch : PlanBatch) (es : List ExecutionRecord) (vs : List Verified) (r : Report)
      → reconcile h t batch es ≡ some (vs, r)
      → length vs + length r.unmatched_execution_refs ≡ length es
  unfolding verify_batch
  length-reconcile batch es vs r e =
      let (v, u, _) = reconcile-some batch es vs r e in
      let n = length-pairs_of batch.plans es in
      let m = ap length v ∙ length-map (λ (p, x). verified p x) (pairs_of batch.plans es) in
      let k = ap length u ∙ length-sort str_le (unmatched_of batch.plans es) in omega arith
    where
      length-map : {A B : Type 0} (f : A → B) (xs : List A) → length (map f xs) ≡ length xs
      length-map f [] = refl
      length-map f (x ∷ xs) = ap suc (length-map f xs)

  -- A reconciliation that returns has verified exactly the execution records that name a plan of the
  -- batch, each against the plan it names, and reported exactly the identifiers of the others; each
  -- record is counted once.
  pub reconcile-partition :
      (batch : PlanBatch) (es : List ExecutionRecord) (vs : List Verified) (r : Report)
      → reconcile h t batch es ≡ some (vs, r)
      → ((v : Verified)
          → Has v vs ↔ (
              (p : VerificationPlan) × (e : ExecutionRecord) × Has e es
              × (plan_for e.plan_ref batch.plans ≡ some p)
              × (verified p e ≡ v)))
        × ((id : String)
            → Has id r.unmatched_execution_refs ↔ (
                (e : ExecutionRecord) × Has e es
                × (plan_for e.plan_ref batch.plans ≡ none)
                × (e.execution_id ≡ id)))
        × (length vs + length r.unmatched_execution_refs ≡ length es)
  unfolding verify_batch
  reconcile-partition batch es vs r returned =
      let (v, u, _) = reconcile-some batch es vs r returned in
      let pairs = pairs_of batch.plans es in
      (
        λ w.
            let (to, from) = Has-map (λ (p, x). verified p x) w pairs in
            (
              λ k.
                  let ((p, x), in_pairs, s) = to (subst (Has w) v k) in
                  let (known, planned) = (Has-pairs_of batch.plans es p x).0 in_pairs in
                  (p, x, known, planned, s),
              λ (p, x, known, planned, s).
                  subst (Has w) (sym v)
                    (from ((p, x), (Has-pairs_of batch.plans es p x).1 (known, planned), s)),
            ),
        λ id.
            let (unsort, resort) = Has-sort str_le id (unmatched_of batch.plans es) in
            let (to, from) = Has-unmatched_of batch.plans es id in
            (λ k. to (unsort (subst (Has id) u k)), λ x. subst (Has id) (sym u) (resort (from x))),
        length-reconcile batch es vs r returned,
      )

  -- The falsification candidates are exactly those of the execution records that name a plan of the
  -- batch, fit it, succeeded, and violate one of its expectations.
  pub reconcile-candidates :
      (batch : PlanBatch) (es : List ExecutionRecord) (vs : List Verified) (r : Report)
      → reconcile h t batch es ≡ some (vs, r)
      → (c : Candidate)
      → Has c r.falsification_candidates ↔ (
          (p : VerificationPlan) × (e : ExecutionRecord) × Has e es
          × (plan_for e.plan_ref batch.plans ≡ some p)
          × (contradicts p e ≡ true)
          × (candidate_of (verified p e) ≡ c))
  unfolding verify_batch
  reconcile-candidates batch es vs r e c =
      let (v, _, cs) = reconcile-some batch es vs r e in
      let pairs = pairs_of batch.plans es in
      let all_of = cs ∙ ap (λ x. collect is_mismatch candidate_of x) v in
      let (to, from) =
        Has-collect is_mismatch candidate_of c (map (λ (p, x). verified p x) pairs) in
      (
        λ k.
            let (w, m, bad, q) = to (subst (Has c) all_of k) in
            let ((p, x), in_pairs, s) = (Has-map (λ (p, x). verified p x) w pairs).0 m in
            let (known, planned) = (Has-pairs_of batch.plans es p x).0 in_pairs in
            (
              p,
              x,
              known,
              planned,
              sym (mismatch_verified p x) ∙ subst (λ y. is_mismatch y ≡ true) (sym s) bad,
              ap candidate_of s ∙ q,
            ),
        λ (p, x, known, planned, bad, q). subst (Has c) (sym all_of) (
            from (
              verified p x,
              (Has-map (λ (p, x). verified p x) (verified p x) pairs).1
                  ((p, x), (Has-pairs_of batch.plans es p x).1 (known, planned), refl),
              mismatch_verified p x ∙ bad,
              q,
            )),
      )
