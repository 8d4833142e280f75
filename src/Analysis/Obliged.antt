-- ===== src/Analysis/Obliged.antt =====
-- When an effect is an obligation without condition.
use atlas_db_agent.Prelude.{
  ◌≡◌, refl, ◌∙◌, inl, inr, Bool, true, false, not, ◌&&◌, ◌||◌, String, Option, none, some, List,
  [], ◌∷◌, arith, is_empty, Bool-cases, if◌then◌else◌,
}
use atlas_db_agent.Analysis.Records.{
  EffectKind, EffectCandidate, EffectObservability, TransactionSurvivalClassification, Completeness,
}
use atlas_db_agent.Analysis.Modality.{
  EffectRelationship, BehaviorActionScope, BehaviorEffectBundle, LoopSummary, EffectModality,
  Judgement, judge, base, is_must, is_partial, is_iteration, in_loops, partial_loops, in_bundle,
  of_kind, of_observability, of_transaction, summary_partial, turns,
}

-- What the source asks of an effect that must happen.
abbrev pub is_required : EffectRelationship → Bool
is_required EffectRelationship.primary = true
is_required EffectRelationship.required_co_effect = true
is_required _ = false

abbrev pub is_resolved : EffectCandidate → Bool
is_resolved e = elim e.observability [
  | EffectObservability.unresolved_effect_boundary ↦ false
  | EffectObservability.transaction_survival_unresolved ↦ false
  | _ ↦ elim e.effect_kind [ EffectKind.call ↦ false | _ ↦ true ]
]

abbrev pub is_kept : Option TransactionSurvivalClassification → Bool
is_kept none = true
is_kept (some TransactionSurvivalClassification.must_commit) = true
is_kept (some _) = false

must_base : (r : EffectRelationship) → is_must (base r).modality ≡ is_required r
must_base EffectRelationship.primary = refl
must_base EffectRelationship.required_co_effect = refl
must_base EffectRelationship.conditional_co_effect = refl
must_base EffectRelationship.alternative_effect = refl
must_base EffectRelationship.compensating_effect = refl
must_base EffectRelationship.audit_effect = refl
must_base EffectRelationship.rolled_back_effect = refl

must_partial_loops :
    (summaries : List LoopSummary) (refs : List String) (j : Judgement)
    → is_must j.modality ≡ false
    → is_must (partial_loops summaries refs j).modality ≡ false
unfolding partial_loops
must_partial_loops summaries [] j e = e
must_partial_loops summaries (ref ∷ refs) j e =
    must_partial_loops summaries refs _ (after_loop (summary_partial summaries ref))
  where
    after_loop :
        (b : Bool)
        → is_must
            (if b
              then turns EffectModality.unknown_modality "LOOP_SUMMARY_PARTIAL" j
              else j).modality
          ≡ false
    after_loop true = refl
    after_loop false = e

weakened : (m : EffectModality) → is_must (if is_must m then EffectModality.may else m) ≡ false
weakened EffectModality.must = refl
weakened EffectModality.must_if_caller_contract_holds = refl
weakened EffectModality.may = refl
weakened EffectModality.must_not = refl
weakened EffectModality.unknown_modality = refl

must_in_loops :
    (summaries : List LoopSummary) (scope : BehaviorActionScope) (loops : List String)
    (j : Judgement)
    → is_must (in_loops summaries scope loops j).modality
      ≡ (is_must j.modality && (is_empty loops || is_iteration scope))
unfolding in_loops
must_in_loops summaries scope [] j = ground arith
must_in_loops summaries scope (ref ∷ refs) j = elim (Bool-cases (is_iteration scope)) [
  | inl t ↦ rw t (ground arith)
  | inr f ↦ rw f (must_partial_loops summaries (ref ∷ refs) _ (weakened j.modality) ∙ ground arith)
]

must_in_bundle :
    (c : Completeness) (j : Judgement)
    → is_must (in_bundle c j).modality ≡ (is_must j.modality && not (is_partial c))
must_in_bundle c j = elim (Bool-cases (is_partial c && is_must j.modality)) [
  | inl t ↦ rw t (ground (arith, t))
  | inr f ↦ rw f (ground (arith, f))
]

must_resolved :
    (e : EffectCandidate) (j : Judgement)
    → is_must (of_observability e.observability (of_kind e j)).modality
      ≡ (is_must j.modality && is_resolved e)
must_resolved e j = go e.observability e.effect_kind
  where
    go :
        (o : EffectObservability) (k : EffectKind)
        → let x = record e { observability = o; effect_kind = k } in
          is_must (of_observability o (of_kind x j)).modality
          ≡ (is_must j.modality && is_resolved x)
    go EffectObservability.unresolved_effect_boundary k = ground arith
    go EffectObservability.transaction_survival_unresolved k = ground arith
    go _ EffectKind.call = ground arith
    go _ EffectKind.dynamic_sql = ground arith
    go _ _ = ground arith

must_transaction :
    (t : Option TransactionSurvivalClassification) (j : Judgement)
    → is_must (elim t as (λ _. Judgement) [ none ↦ j | some c ↦ of_transaction c j ]).modality
      ≡ (is_must j.modality && is_kept t)
must_transaction none j = ground arith
must_transaction (some c) j = go c
  where
    go :
        (c : TransactionSurvivalClassification)
        → is_must (of_transaction c j).modality ≡ (is_must j.modality && is_kept (some c))
    go TransactionSurvivalClassification.must_commit = ground arith
    go _ = ground arith

-- An effect is obliged without condition (MUST) exactly when it is the primary effect or a required
-- co-effect, stands in no loop or its bundle is scoped to an iteration, its bundle is complete, it is
-- neither a call nor observed without resolution, and its transaction, where it has one, must commit.
pub judge-must :
    (summaries : List LoopSummary) (bundle : BehaviorEffectBundle)
    (relationship : EffectRelationship) (effect : EffectCandidate) (loops : List String)
    (transaction : Option TransactionSurvivalClassification)
    → is_must (judge summaries bundle relationship effect loops transaction).modality ≡ (
        is_required relationship
        && (is_empty loops || is_iteration bundle.action_scope)
        && not (is_partial bundle.bundle_completeness)
        && is_resolved effect
        && is_kept transaction)
unfolding judge
judge-must summaries bundle relationship effect loops transaction =
    let looped = in_loops summaries bundle.action_scope loops (base relationship) in
    let bundled = in_bundle bundle.bundle_completeness looped in
    let observed = of_observability effect.observability (of_kind effect bundled) in
    ground (
      arith,
      must_base relationship,
      must_in_loops summaries bundle.action_scope loops (base relationship),
      must_in_bundle bundle.bundle_completeness looped,
      must_resolved effect bundled,
      must_transaction transaction observed,
    )
