-- ===== src/Analysis/Examples.antt =====
-- An update that a commit follows, with a handler of its own.
use atlas_db_agent.Prelude.{
  ◌≡◌, ◌⊎◌, all, refl, ◌↔◌, Bool, true, false, String, none, some, [], ◌∷◌, any, Has, collect,
  unique, contains,
}
use atlas_db_agent.Prelude.Sorting.{sort}
use atlas_db_agent.Prelude.Explore.{Explored}
use atlas_db_agent.Prelude.Texts.{last_with}
use atlas_db_agent.Analysis.Records.{
  NodeKind, SourceRange, AstNode, ProcedureAst, CfgEdgeKind, CfgEdge, ControlFlowGraph, EffectKind,
  EffectObservability, EffectCandidate, TransactionPathOutcome, TransactionSurvivalClassification,
  CommitOnReturn, Completeness,
}
use atlas_db_agent.Analysis.Boundaries.{same_state, boundary, successors, first_boundaries}
use atlas_db_agent.Analysis.Survival.{classify, observability_of, is_terminal}
use atlas_db_agent.Analysis.Transaction.{
  Texts, Surveyed, survey, analysis_of, cfg_of, commit_on_return_of, distinct_outcomes,
}
use atlas_db_agent.Analysis.Paths.{Walk, first_boundaries-Walk}
use atlas_db_agent.Analysis.Survived.{commits}
use atlas_db_agent.Analysis.Classified.{classify-caller_controlled_or_exceptional}
use atlas_db_agent.Analysis.Committed.{survey-committed}
use atlas_db_agent.Analysis.Modality.{
  EffectRelationship, BehaviorActionScope, BehaviorEffectBundle, judge, is_must,
}
use atlas_db_agent.Analysis.Obliged.{judge-must}

abbrev texts : Texts
texts = record { sha256_hex = λ s. s; upper = λ s. s }

abbrev range : SourceRange
range = record {
  start_line = 1;
  start_column = 1;
  start_offset = 0;
  end_line = 1;
  end_column = 9;
  end_offset = 8;
}

abbrev statement : String → NodeKind → AstNode
statement id kind = record {
  node_id = id;
  kind = kind;
  source_range = range;
  if_arms = none;
  handler_body = none;
  loop_body = none;
  child_refs = [];
  assignment_binding = none;
  select_into_targets = none;
  execute_targets = none;
  fetch_targets = none;
}

abbrev ast : ProcedureAst
ast = record {
  node_id = "procedure";
  commit_on_return = some "NO";
  body_node_refs = "update" ∷ "commit" ∷ [];
  nodes = statement "update" NodeKind.dml ∷ statement "commit" NodeKind.commit ∷ [];
  declared_symbol_types = [];
}

abbrev edge : String → String → CfgEdgeKind → CfgEdge
edge a b kind = record { source_ref = a; target_ref = b; edge_kind = kind }

abbrev cfg : ControlFlowGraph
cfg = record {
  normal_exit_ref = "exit";
  exceptional_exit_ref = "escape";
  nodes =
      (record { cfg_node_id = "n1"; ast_node_ref = some "update" })
      ∷ (record { cfg_node_id = "n2"; ast_node_ref = some "commit" })
      ∷ (record { cfg_node_id = "exit"; ast_node_ref = none })
      ∷ [];
  edges =
      edge "n1" "n2" CfgEdgeKind.sequential
      ∷ edge "n1" "escape" CfgEdgeKind.handler
      ∷ edge "n2" "exit" CfgEdgeKind.sequential
      ∷ [];
}

abbrev update : EffectCandidate
update = record {
  effect_id = "e1";
  effect_kind = EffectKind.dml;
  source_node_ref = "update";
  observability = EffectObservability.transaction_survival_unresolved;
  transaction_analysis_ref = none;
}

placed : cfg_of texts ast cfg none "update" ≡ some "n1"
unfolding last_with
placed = refl

survey-committed_example :
    (s : Surveyed) × (survey texts ast cfg none update ≡ some s)
    × ((observability_of (analysis_of texts ast cfg none update s).classification
          ≡ EffectObservability.committed_effect)
        ↔ (((at : String) × (first : Bool) × (o : TransactionPathOutcome × String) × Walk cfg
                ast.nodes
                (commit_on_return_of texts ast.commit_on_return)
                none
                "n1"
                at
                first
              × (boundary cfg ast.nodes
                    (commit_on_return_of texts ast.commit_on_return)
                    none
                    (at, first)
                  ≡ some o))
            × ((at : String) (first : Bool) (o : TransactionPathOutcome × String)
                → Walk cfg ast.nodes
                    (commit_on_return_of texts ast.commit_on_return)
                    none
                    "n1"
                    at
                    first
                → boundary cfg ast.nodes
                    (commit_on_return_of texts ast.commit_on_return)
                    none
                    (at, first)
                  ≡ some o
                → commits o.0 ≡ true)))
survey-committed_example = survey-committed texts ast cfg none update "n1" placed

-- The update of the example is committed: the handler's edge is not taken.
committed :
    survey texts ast cfg none update
    ≡ some (record {
      outcomes = TransactionPathOutcome.explicit_commit ∷ [];
      boundaries = "commit" ∷ [];
      completeness = Completeness.complete;
    })
unfolding survey distinct_outcomes last_with boundary successors collect sort any unique contains
committed = refl

first_boundaries-Walk_example :
    (out : Explored same_state
      (boundary cfg ast.nodes CommitOnReturn.keeps none)
      (successors cfg ast.nodes CommitOnReturn.keeps none))
    × (first_boundaries cfg ast.nodes CommitOnReturn.keeps none "n1" ≡ some out)
    × ((o : TransactionPathOutcome × String)
        → Has o out.found ↔ (
            (at : String) × (first : Bool) × Walk cfg ast.nodes CommitOnReturn.keeps none "n1" at
              first
            × (boundary cfg ast.nodes CommitOnReturn.keeps none (at, first) ≡ some o)))
first_boundaries-Walk_example = first_boundaries-Walk cfg ast.nodes CommitOnReturn.keeps none "n1"

no_path : any is_terminal (TransactionPathOutcome.no_terminal_path ∷ []) ≡ false
unfolding any
no_path = refl

classify-caller_controlled_or_exceptional_example :
    (classify (TransactionPathOutcome.no_terminal_path ∷ [])
      ≡ TransactionSurvivalClassification.caller_controlled_or_exceptional)
    ↔ (((o : TransactionPathOutcome)
          → Has o (TransactionPathOutcome.no_terminal_path ∷ [])
          → is_terminal o ≡ true
          → (o ≡ TransactionPathOutcome.normal_exit_caller_controlled)
            ⊎ (o ≡ TransactionPathOutcome.exceptional_escape))
        × (Has TransactionPathOutcome.normal_exit_caller_controlled
              (TransactionPathOutcome.no_terminal_path ∷ [])
            → Has TransactionPathOutcome.exceptional_escape
                (TransactionPathOutcome.no_terminal_path ∷ [])))
classify-caller_controlled_or_exceptional_example =
    classify-caller_controlled_or_exceptional (TransactionPathOutcome.no_terminal_path ∷ [])

no_terminal_path_is_exceptional :
    classify (TransactionPathOutcome.no_terminal_path ∷ [])
    ≡ TransactionSurvivalClassification.caller_controlled_or_exceptional
unfolding classify any all collect
no_terminal_path_is_exceptional = refl

abbrev bundle : BehaviorEffectBundle
bundle = record {
  bundle_id = "b1";
  effect_members = (record { effect_ref = "e1"; relationship = EffectRelationship.primary }) ∷ [];
  action_scope = BehaviorActionScope.procedure_invocation;
  bundle_completeness = Completeness.complete;
}

abbrev kept : EffectCandidate
kept = record update { observability = EffectObservability.committed_effect }

judge-must_example :
    is_must
      (judge [] bundle EffectRelationship.primary kept []
        (some TransactionSurvivalClassification.must_commit)).modality
    ≡ true
judge-must_example =
    judge-must [] bundle EffectRelationship.primary kept []
      (some TransactionSurvivalClassification.must_commit)
