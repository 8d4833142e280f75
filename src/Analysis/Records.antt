-- ===== src/Analysis/Records.antt =====
-- The records of a parsed procedure, its control flow and its effects that the analyses read and
-- write: parsing/models.py and analysis/models.py. A field that they never read is left out.
use atlas_db_agent.Prelude.{Bool, true, false, ℕ, String, Option, List}
pub use atlas_db_agent.Runtime.Kinds.{EffectKind, EffectObservability}

pub data NodeKind : Type 0 where
  procedure compound declare_variable declare_cursor declare_condition set if_node elseif else_node
        select_into signal resignal get_diagnostics call dml commit rollback savepoint return
        open_cursor fetch_cursor close_cursor leave iterate prepare execute execute_immediate
        handler_region loop_region if_region if_arm opaque :
      NodeKind

pub record SourceRange : Type 0 where
  pub start_line : ℕ
  pub start_column : ℕ
  pub start_offset : ℕ
  pub end_line : ℕ
  pub end_column : ℕ
  pub end_offset : ℕ

pub record IfArm : Type 0 where
  pub arm_id : String
  pub condition_text : Option String
  pub body_node_refs : List String
  pub source_range : SourceRange

pub record AssignmentBinding : Type 0 where
  pub target_name : String
  pub expression_text : String

-- Of a region the references of its body or its arms, and of a binding its target names.
pub record AstNode : Type 0 where
  pub node_id : String
  pub kind : NodeKind
  pub source_range : SourceRange
  pub if_arms : Option (List IfArm)
  pub handler_body : Option (List String)
  pub loop_body : Option (List String)
  pub child_refs : List String
  pub assignment_binding : Option AssignmentBinding
  pub select_into_targets : Option (List String)
  pub execute_targets : Option (List String)
  pub fetch_targets : Option (List String)

pub record DeclaredSymbol : Type 0 where
  pub symbol_name : String
  pub default_expression : Option String
  pub source_ref : String

pub record ProcedureAst : Type 0 where
  pub node_id : String
  pub commit_on_return : Option String
  pub body_node_refs : List String
  pub nodes : List AstNode
  pub declared_symbol_types : List DeclaredSymbol

pub data CfgEdgeKind : Type 0 where
  entry sequential if_arm if_no_match loop_body loop_exit loop_back leave iterate return signal
        resignal handler handler_body handler_fallthrough :
      CfgEdgeKind

abbrev pub edge_kind_value : CfgEdgeKind → String
edge_kind_value CfgEdgeKind.entry = "ENTRY"
edge_kind_value CfgEdgeKind.sequential = "SEQUENTIAL"
edge_kind_value CfgEdgeKind.if_arm = "IF_ARM"
edge_kind_value CfgEdgeKind.if_no_match = "IF_NO_MATCH"
edge_kind_value CfgEdgeKind.loop_body = "LOOP_BODY"
edge_kind_value CfgEdgeKind.loop_exit = "LOOP_EXIT"
edge_kind_value CfgEdgeKind.loop_back = "LOOP_BACK"
edge_kind_value CfgEdgeKind.leave = "LEAVE"
edge_kind_value CfgEdgeKind.iterate = "ITERATE"
edge_kind_value CfgEdgeKind.return = "RETURN"
edge_kind_value CfgEdgeKind.signal = "SIGNAL"
edge_kind_value CfgEdgeKind.resignal = "RESIGNAL"
edge_kind_value CfgEdgeKind.handler = "HANDLER"
edge_kind_value CfgEdgeKind.handler_body = "HANDLER_BODY"
edge_kind_value CfgEdgeKind.handler_fallthrough = "HANDLER_FALLTHROUGH"

abbrev pub is_handler_edge : CfgEdgeKind → Bool
is_handler_edge CfgEdgeKind.handler = true
is_handler_edge _ = false

pub record CfgNode : Type 0 where
  pub cfg_node_id : String
  pub ast_node_ref : Option String

pub record CfgEdge : Type 0 where
  pub source_ref : String
  pub target_ref : String
  pub edge_kind : CfgEdgeKind

pub record ControlFlowGraph : Type 0 where
  pub normal_exit_ref : String
  pub exceptional_exit_ref : String
  pub nodes : List CfgNode
  pub edges : List CfgEdge

pub record EffectCandidate : Type 0 where
  pub effect_id : String
  pub effect_kind : EffectKind
  pub source_node_ref : String
  pub observability : EffectObservability
  pub transaction_analysis_ref : Option String

pub data TransactionPathOutcome : Type 0 where
  explicit_commit explicit_rollback normal_exit_caller_controlled caller_contract_commit
        caller_contract_rollback commit_on_return exceptional_escape no_terminal_path :
      TransactionPathOutcome

abbrev pub outcome_value : TransactionPathOutcome → String
outcome_value TransactionPathOutcome.explicit_commit = "EXPLICIT_COMMIT"
outcome_value TransactionPathOutcome.explicit_rollback = "EXPLICIT_ROLLBACK"
outcome_value TransactionPathOutcome.normal_exit_caller_controlled = "NORMAL_EXIT_CALLER_CONTROLLED"
outcome_value TransactionPathOutcome.caller_contract_commit = "CALLER_CONTRACT_COMMIT"
outcome_value TransactionPathOutcome.caller_contract_rollback = "CALLER_CONTRACT_ROLLBACK"
outcome_value TransactionPathOutcome.commit_on_return = "COMMIT_ON_RETURN"
outcome_value TransactionPathOutcome.exceptional_escape = "EXCEPTIONAL_ESCAPE"
outcome_value TransactionPathOutcome.no_terminal_path = "NO_TERMINAL_PATH"

pub data TransactionSurvivalClassification : Type 0 where
  must_commit must_rollback caller_controlled caller_contract_commit may_commit_or_rollback
        may_commit_or_caller_controlled caller_controlled_or_exceptional
        may_commit_rollback_or_caller_controlled unresolved :
      TransactionSurvivalClassification

pub record CallerTransactionContract : Type 0 where
  pub contract_id : String
  pub evidence_refs : List String
  pub content_digest : String

pub data Completeness : Type 0 where
  complete partial : Completeness

pub record EffectTransactionAnalysis : Type 0 where
  pub analysis_id : String
  pub effect_ref : String
  pub transaction_region_ref : String
  pub reachable_outcomes : List TransactionPathOutcome
  pub classification : TransactionSurvivalClassification
  pub boundary_node_refs : List String
  pub analysis_completeness : Completeness
  pub evidence_refs : List String
  pub caller_transaction_contract_ref : Option String
  pub caller_transaction_contract_digest : Option String

pub data CommitOnReturn : Type 0 where
  commits keeps unknown : CommitOnReturn

pub record TransactionRegion : Type 0 where
  pub transaction_region_id : String
  pub procedure_ast_ref : String
  pub commit_on_return : CommitOnReturn
  pub effect_refs : List String
  pub explicit_commit_refs : List String
  pub explicit_rollback_refs : List String
  pub analysis_completeness : Completeness

pub data SemanticFindingCode : Type 0 where
  dml_transaction_survival_unresolved dml_may_commit_or_rollback dml_caller_controlled :
      SemanticFindingCode
  impossible_null_predicate : SemanticFindingCode

pub record SemanticFinding : Type 0 where
  pub finding_id : String
  pub code : SemanticFindingCode
  pub message : String
  pub evidence_node_refs : List String
  pub source_ranges : List SourceRange
  pub consequence : String
