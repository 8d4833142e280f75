-- ===== src/Analysis/Modality.antt =====
-- How far an effect is an obligation: `EffectModalityAnalyzer` of analysis/modalities.py.
use Prim.Native.String.{◌++◌ as text_append}
use mathlib.Core.Option.{map as option_map}
use atlas_db_agent.Prelude.{
  ℕ, zero, suc, length, Bool, true, false, ◌&&◌, String, Option, none, some, List, [], ◌∷◌, ◌++◌,
  map, str_eq, if◌then◌else◌, collect,
}
use atlas_db_agent.Prelude.Texts.{sorted_set, sort_on, join_by, identifier, last_with}
use atlas_db_agent.Analysis.Records.{
  NodeKind, IfArm, AstNode, ProcedureAst, EffectKind, EffectCandidate, EffectObservability,
  TransactionSurvivalClassification, Completeness, EffectTransactionAnalysis,
}
use atlas_db_agent.Analysis.Boundaries.{node_by_id}
pub use atlas_db_agent.Runtime.Verify.Records.{EffectModality}

pub data EffectRelationship : Type 0 where
  primary required_co_effect conditional_co_effect alternative_effect compensating_effect
        audit_effect rolled_back_effect :
      EffectRelationship

abbrev pub relationship_value : EffectRelationship → String
relationship_value EffectRelationship.primary = "PRIMARY"
relationship_value EffectRelationship.required_co_effect = "REQUIRED_CO_EFFECT"
relationship_value EffectRelationship.conditional_co_effect = "CONDITIONAL_CO_EFFECT"
relationship_value EffectRelationship.alternative_effect = "ALTERNATIVE_EFFECT"
relationship_value EffectRelationship.compensating_effect = "COMPENSATING_EFFECT"
relationship_value EffectRelationship.audit_effect = "AUDIT_EFFECT"
relationship_value EffectRelationship.rolled_back_effect = "ROLLED_BACK_EFFECT"

pub data BehaviorActionScope : Type 0 where
  procedure_invocation cursor_iteration handler_activation post_loop_aggregation
        transaction_completion :
      BehaviorActionScope

pub record BundleEffectMember : Type 0 where
  pub effect_ref : String
  pub relationship : EffectRelationship

pub record BehaviorEffectBundle : Type 0 where
  pub bundle_id : String
  pub effect_members : List BundleEffectMember
  pub action_scope : BehaviorActionScope
  pub bundle_completeness : Completeness

pub record LoopSummary : Type 0 where
  pub loop_region_ref : String
  pub analysis_completeness : Completeness

abbrev pub modality_value : EffectModality → String
modality_value EffectModality.must = "MUST"
modality_value EffectModality.must_if_caller_contract_holds = "MUST_IF_CALLER_CONTRACT_HOLDS"
modality_value EffectModality.may = "MAY"
modality_value EffectModality.must_not = "MUST_NOT"
modality_value EffectModality.unknown_modality = "UNKNOWN"

abbrev pub classification_value : TransactionSurvivalClassification → String
classification_value TransactionSurvivalClassification.must_commit = "MUST_COMMIT"
classification_value TransactionSurvivalClassification.must_rollback = "MUST_ROLLBACK"
classification_value TransactionSurvivalClassification.caller_controlled = "CALLER_CONTROLLED"
classification_value TransactionSurvivalClassification.caller_contract_commit =
    "CALLER_CONTRACT_COMMIT"
classification_value TransactionSurvivalClassification.may_commit_or_rollback =
    "MAY_COMMIT_OR_ROLLBACK"
classification_value TransactionSurvivalClassification.may_commit_or_caller_controlled =
    "MAY_COMMIT_OR_CALLER_CONTROLLED"
classification_value TransactionSurvivalClassification.caller_controlled_or_exceptional =
    "CALLER_CONTROLLED_OR_EXCEPTIONAL"
classification_value TransactionSurvivalClassification.may_commit_rollback_or_caller_controlled =
    "MAY_COMMIT_ROLLBACK_OR_CALLER_CONTROLLED"
classification_value TransactionSurvivalClassification.unresolved = "UNRESOLVED"

pub record EffectObligation : Type 0 where
  pub obligation_id : String
  pub bundle_ref : String
  pub effect_ref : String
  pub relationship : EffectRelationship
  pub modality : EffectModality
  pub reason_codes : List String

-- `modality` and `reasons` as the loop's body changes them.
pub record Judgement : Type 0 where
  pub modality : EffectModality
  pub reasons : List String

-- `reasons.append(reason)`, and with `modality = m` before it.
abbrev pub because : String → Judgement → Judgement
because reason j = record { modality = j.modality; reasons = j.reasons ++ reason ∷ [] }

abbrev pub turns : EffectModality → String → Judgement → Judgement
turns m reason j = record { modality = m; reasons = j.reasons ++ reason ∷ [] }

-- `_base`
abbrev pub base : EffectRelationship → Judgement
base EffectRelationship.primary = record {
  modality = EffectModality.must;
  reasons = "PRIMARY" ∷ [];
}
base EffectRelationship.required_co_effect = record {
  modality = EffectModality.must;
  reasons = "REQUIRED_CO_EFFECT" ∷ [];
}
base EffectRelationship.rolled_back_effect = record {
  modality = EffectModality.must_not;
  reasons = "ROLLED_BACK_EFFECT" ∷ [];
}
base r = record { modality = EffectModality.may; reasons = relationship_value r ∷ [] }

abbrev pub is_partial : Completeness → Bool
is_partial Completeness.complete = false
is_partial Completeness.partial = true

abbrev pub is_must : EffectModality → Bool
is_must EffectModality.must = true
is_must _ = false

abbrev pub is_iteration : BehaviorActionScope → Bool
is_iteration BehaviorActionScope.cursor_iteration = true
is_iteration _ = false

abbrev pub summary_partial : List LoopSummary → String → Bool
summary_partial summaries ref =
    elim (last_with (λ (s : LoopSummary). some s.loop_region_ref) (λ s. s.analysis_completeness) ref
      summaries) [ none ↦ true | some c ↦ is_partial c ]

-- `for loop_ref in ancestor_loops`
unfoldable pub partial_loops : List LoopSummary → List String → Judgement → Judgement
partial_loops summaries [] j = j
partial_loops summaries (ref ∷ refs) j =
    let next =
      if summary_partial summaries ref
      then turns EffectModality.unknown_modality "LOOP_SUMMARY_PARTIAL" j
      else j in
    partial_loops summaries refs next

unfoldable pub in_loops :
    List LoopSummary → BehaviorActionScope → List String → Judgement → Judgement
unfolding partial_loops
in_loops summaries scope [] j = j
in_loops summaries scope (ref ∷ refs) j =
    if is_iteration scope
    then because "ITERATION_SCOPED_BEHAVIOR" j
    else partial_loops summaries (ref ∷ refs) (
        turns (if is_must j.modality then EffectModality.may else j.modality)
          "LOOP_EXECUTION_DATA_DEPENDENT" j)

abbrev pub in_bundle : Completeness → Judgement → Judgement
in_bundle completeness j =
    if is_partial completeness && is_must j.modality
    then turns EffectModality.unknown_modality "BUNDLE_PARTIAL" j
    else j

abbrev pub is_boundary : EffectObservability → Bool
is_boundary EffectObservability.unresolved_effect_boundary = true
is_boundary _ = false

abbrev pub of_kind : EffectCandidate → Judgement → Judgement
of_kind effect j = elim effect.effect_kind [
  | EffectKind.call ↦ turns EffectModality.unknown_modality "UNRESOLVED_EFFECT_BOUNDARY" j
  | EffectKind.dynamic_sql ↦
      if is_boundary effect.observability
      then turns EffectModality.unknown_modality "UNRESOLVED_DYNAMIC_SQL_EFFECT_BOUNDARY" j
      else j
  | _ ↦ j
]

abbrev pub of_observability : EffectObservability → Judgement → Judgement
of_observability EffectObservability.unresolved_effect_boundary j =
    turns EffectModality.unknown_modality "UNRESOLVED_EFFECT_BOUNDARY" j
of_observability EffectObservability.transaction_survival_unresolved j =
    turns EffectModality.unknown_modality "TRANSACTION_SURVIVAL_UNRESOLVED" j
of_observability _ j = j

abbrev pub of_transaction : TransactionSurvivalClassification → Judgement → Judgement
of_transaction TransactionSurvivalClassification.must_rollback j =
    turns EffectModality.must_not "TRANSACTION_MUST_ROLLBACK" j
of_transaction TransactionSurvivalClassification.caller_contract_commit j =
    turns EffectModality.must_if_caller_contract_holds "CALLER_TRANSACTION_CONTRACT" j
of_transaction TransactionSurvivalClassification.must_commit j = j
of_transaction c j =
    turns EffectModality.unknown_modality (text_append "TRANSACTION_" (classification_value c)) j

-- The tests of the loop's body, in their order.
unfoldable pub judge :
    List LoopSummary
    → BehaviorEffectBundle
    → EffectRelationship
    → EffectCandidate
    → List String
    → Option TransactionSurvivalClassification
    → Judgement
unfolding in_loops
judge summaries bundle relationship effect loops transaction =
    let looped = in_loops summaries bundle.action_scope loops (base relationship) in
    let bundled = in_bundle bundle.bundle_completeness looped in
    let observed = of_observability effect.observability (of_kind effect bundled) in
    elim transaction [ none ↦ observed | some c ↦ of_transaction c observed ]

abbrev pub around : AstNode → List String → List String
around node loops = elim node.kind [ NodeKind.loop_region ↦ loops ++ node.node_id ∷ [] | _ ↦ loops ]

abbrev pub concat_lists : List (List String) → List String
concat_lists [] = []
concat_lists (xs ∷ xss) = xs ++ concat_lists xss

abbrev pub children_of : AstNode → List String
children_of node = elim node.if_arms [
  | some arms ↦ concat_lists (map (λ (a : IfArm). a.body_node_refs) arms)
  | none ↦ elim node.handler_body [
    | some refs ↦ refs
    | none ↦ elim node.loop_body [ some refs ↦ refs | none ↦ node.child_refs ]
  ]
]

abbrev pub both_lists :
    Option (List (String × List String))
    → Option (List (String × List String))
    → Option (List (String × List String))
both_lists (some xs) (some ys) = some (xs ++ ys)
both_lists _ _ = none

abbrev pub for_each :
    (String → Option (List (String × List String)))
    → List String
    → Option (List (String × List String))
for_each visit_one [] = some []
for_each visit_one (ref ∷ refs) = both_lists (visit_one ref) (for_each visit_one refs)

-- `visit(ref, loops)`: each node that is reached from `ref`, with the loops around it. `none`: a
-- reference names no node (`KeyError`), or the fuel ran out.
unfoldable pub visit :
    ProcedureAst → ℕ → String → List String → Option (List (String × List String))
visit ast zero ref loops = none
visit ast (suc fuel) ref loops = elim (node_by_id ref ast.nodes) [
  | none ↦ none
  | some node ↦
      both_lists (some ((ref, around node loops) ∷ []))
        (for_each (λ child. visit ast fuel child (around node loops)) (children_of node))
]

-- `loop_ancestors.get(ref, ())`
unfoldable pub ancestors : String → List (String × List String) → List String
ancestors ref pairs =
    sorted_set (concat_lists (collect (λ (r, _). str_eq r ref) (λ (_, loops). loops) pairs))

abbrev pub obligation_of :
    (String → String)
    → BehaviorEffectBundle
    → EffectRelationship
    → EffectCandidate
    → Judgement
    → EffectObligation
obligation_of sha256_hex bundle relationship effect j = record {
  obligation_id = identifier sha256_hex "effect-obligation-" (
      join_by "|" (
        bundle.bundle_id
        ∷ effect.effect_id
        ∷ relationship_value relationship
        ∷ modality_value j.modality
        ∷ join_by "|" (sorted_set j.reasons)
        ∷ []));
  bundle_ref = bundle.bundle_id;
  effect_ref = effect.effect_id;
  relationship = relationship;
  modality = j.modality;
  reason_codes = sorted_set j.reasons;
}

module _ (sha256_hex : String → String) (pairs : List (String × List String))
    (effects : List EffectCandidate) (transactions : List EffectTransactionAnalysis)
    (summaries : List LoopSummary) where
  -- `transaction_by_id.get(effect.transaction_analysis_ref or "")`
  abbrev pub transaction_of : EffectCandidate → Option TransactionSurvivalClassification
  transaction_of effect =
      last_with (λ (a : EffectTransactionAnalysis). some a.analysis_id) (λ a. a.classification)
        (elim effect.transaction_analysis_ref [ none ↦ "" | some ref ↦ ref ]) transactions

  -- The obligations of one bundle; `none`: a member names no effect (`KeyError`).
  unfoldable pub obligations :
      BehaviorEffectBundle → List BundleEffectMember → Option (List EffectObligation)
  unfolding judge ancestors
  obligations bundle [] = some []
  obligations bundle (member ∷ members) =
      elim (last_with (λ (e : EffectCandidate). some e.effect_id) (λ e. e) member.effect_ref
        effects) [
          | none ↦ none
          | some effect ↦
              option_map
                (λ rest.
                  obligation_of sha256_hex bundle member.relationship effect (
                    judge summaries bundle member.relationship effect
                      (ancestors effect.source_node_ref pairs) (transaction_of effect))
                  ∷ rest)
                (obligations bundle members)
        ]

  unfoldable pub all_obligations : List BehaviorEffectBundle → Option (List EffectObligation)
  unfolding obligations
  all_obligations [] = some []
  all_obligations (b ∷ bs) = elim (obligations b b.effect_members) [
    | none ↦ none
    | some os ↦ option_map (λ rest. os ++ rest) (all_obligations bs)
  ]

-- `_loop_ancestors`: the nesting of an AST is no deeper than its nodes are many.
unfoldable pub loop_ancestors : ProcedureAst → Option (List (String × List String))
unfolding visit
loop_ancestors ast = for_each (λ ref. visit ast (suc (length ast.nodes)) ref []) ast.body_node_refs

unfoldable pub analyze_modalities :
    (String → String)
    → ProcedureAst
    → List EffectCandidate
    → List BehaviorEffectBundle
    → List EffectTransactionAnalysis
    → List LoopSummary
    → Option (List EffectObligation)
unfolding loop_ancestors all_obligations
analyze_modalities sha256_hex ast effects bundles transactions summaries =
    elim (loop_ancestors ast) [
      | none ↦ none
      | some pairs ↦
          option_map (sort_on (λ (o : EffectObligation). o.obligation_id))
            (all_obligations sha256_hex pairs effects transactions summaries bundles)
    ]
