-- ===== src/Runtime/Paired.antt =====
-- Which execution records have a plan (runtime/reconcile.py).
use atlas_db_agent.Prelude.{
  ◌+◌, ◌≡◌, refl, sym, ap, ◌∙◌, subst, ◌↔◌, inl, inr, none, some, String, List, [], ◌∷◌, Has,
  length, arith, Option-cases,
}
use atlas_db_agent.Runtime.Verify.{ExecutionRecord, VerificationPlan}
use atlas_db_agent.Runtime.Reconcile.{plan_for, pairs_of, unmatched_of}

-- Every execution record is either verified or reported as unmatched.
pub length-pairs_of :
    (plans : List VerificationPlan) (es : List ExecutionRecord)
    → length (pairs_of plans es) + length (unmatched_of plans es) ≡ length es
unfolding pairs_of unmatched_of
length-pairs_of plans [] = omega arith
length-pairs_of plans (e ∷ es) = elim (Option-cases (plan_for e.plan_ref plans)) [
  | inl n ↦ rw (n, pairs_of, unmatched_of) (omega (arith, length-pairs_of plans es))
  | inr (p, q) ↦ rw (q, pairs_of, unmatched_of) (omega (arith, length-pairs_of plans es))
]

pub Has-pairs_of :
    (plans : List VerificationPlan) (es : List ExecutionRecord) (p : VerificationPlan)
    (e : ExecutionRecord)
    → Has (p, e) (pairs_of plans es) ↔ (Has e es × (plan_for e.plan_ref plans ≡ some p))
unfolding pairs_of
Has-pairs_of plans [] p e = (λ h. absurd h, λ (h, _). absurd h)
Has-pairs_of plans (x ∷ xs) p e =
    let (to, from) = Has-pairs_of plans xs p e in
    elim (Option-cases (plan_for x.plan_ref plans)) [
      | inl n ↦
          rw (n, pairs_of)
            (
              λ h. let (m, q) = to h in (inr m, q),
              λ (m, q). elim m [
                | inl s ↦
                    absurd
                      (ground (arith, sym (subst (λ y. plan_for y.plan_ref plans ≡ none) s n) ∙ q))
                | inr k ↦ from (k, q)
              ],
            )
      | inr (r, q) ↦
          rw (q, pairs_of)
            (
              elim [
                | inl s ↦
                    let same_p : r ≡ p = ap (λ (y, _). y) s in
                    let same_e : x ≡ e = ap (λ (_, y). y) s in
                    (
                      inl same_e,
                      subst (λ y. plan_for y.plan_ref plans ≡ some p) same_e (q ∙ ap some same_p),
                    )
                | inr h ↦ let (m, k) = to h in (inr m, k)
              ],
              λ (m, k). elim m [
                | inl s ↦
                    let both : some r ≡ some p =
                      sym (subst (λ y. plan_for y.plan_ref plans ≡ some r) s q) ∙ k in
                    let same_p : r ≡ p = cc both in
                    inl (ap (λ y. (y, x)) same_p ∙ ap (λ y. (p, y)) s)
                | inr w ↦ inr (from (w, k))
              ],
            )
    ]

pub Has-unmatched_of :
    (plans : List VerificationPlan) (es : List ExecutionRecord) (id : String)
    → Has id (unmatched_of plans es) ↔ (
        (e : ExecutionRecord) × Has e es
        × (plan_for e.plan_ref plans ≡ none)
        × (e.execution_id ≡ id))
unfolding unmatched_of
Has-unmatched_of plans [] id = (λ h. absurd h, λ (e, h, _, _). absurd h)
Has-unmatched_of plans (x ∷ xs) id =
    let (to, from) = Has-unmatched_of plans xs id in
    elim (Option-cases (plan_for x.plan_ref plans)) [
      | inl n ↦
          rw (n, unmatched_of)
            (
              elim [
                | inl s ↦ (x, inl refl, n, s)
                | inr h ↦ let (e, m, q, s) = to h in (e, inr m, q, s)
              ],
              λ (e, m, q, s). elim m [
                | inl w ↦ inl (ap (λ (y : ExecutionRecord). y.execution_id) w ∙ s)
                | inr k ↦ inr (from (e, k, q, s))
              ],
            )
      | inr (p, q) ↦
          rw (q, unmatched_of)
            (
              λ h. let (e, m, k, s) = to h in (e, inr m, k, s),
              λ (e, m, k, s). elim m [
                | inl w ↦
                    absurd (
                      ground (arith, sym (subst (λ y. plan_for y.plan_ref plans ≡ some p) w q) ∙ k))
                | inr z ↦ from (e, z, k, s)
              ],
            )
    ]
