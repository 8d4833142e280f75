-- ===== src/Analysis/Boundaries.antt =====
-- The first transaction boundaries after a statement: `_first_boundaries` of
-- analysis/transaction.py. A state is a node of the graph and whether it is the statement itself.
use atlas_db_agent.Prelude.{
  suc, ◌+◌, Bool, true, false, ◌&&◌, String, Option, none, some, List, [], ◌∷◌, length, str_eq,
  if◌then◌else◌, collect, not,
}
use atlas_db_agent.Prelude.Sorting.{sort}
use atlas_db_agent.Prelude.Texts.{str_le, last_with}
use atlas_db_agent.Prelude.Explore.{Explored, explore}
use atlas_db_agent.Analysis.Records.{
  NodeKind, AstNode, CfgNode, CfgEdge, ControlFlowGraph, edge_kind_value, is_handler_edge,
  TransactionPathOutcome, CommitOnReturn, CallerTransactionContract,
}

abbrev pub State : Type 0
State = String × Bool

abbrev pub same_state : State → State → Bool
same_state (a, true) (b, true) = str_eq a b
same_state (a, false) (b, false) = str_eq a b
same_state _ _ = false

-- `edge_map[source].sort(key=lambda item: (item[1].value, item[0]))`
abbrev pub edge_le : CfgEdge → CfgEdge → Bool
edge_le a b =
    if str_eq (edge_kind_value a.edge_kind) (edge_kind_value b.edge_kind)
    then str_le a.target_ref b.target_ref
    else str_le (edge_kind_value a.edge_kind) (edge_kind_value b.edge_kind)

unfoldable pub edges_from : String → List CfgEdge → List CfgEdge
edges_from ref edges = sort edge_le (collect (λ e. str_eq e.source_ref ref) (λ e. e) edges)

-- `ast_by_id.get(ref)`
abbrev pub node_by_id : String → List AstNode → Option AstNode
node_by_id = last_with (λ n. some n.node_id) (λ n. n)

-- `cfg_ast.get(ref)`
abbrev pub ast_ref_of : String → List CfgNode → Option String
ast_ref_of ref nodes =
    elim (last_with
      (λ (n : CfgNode). elim n.ast_node_ref [ none ↦ none | some _ ↦ some n.cfg_node_id ])
      (λ n. n.ast_node_ref) ref nodes) [ none ↦ none | some found ↦ found ]

abbrev pub kind_boundary : NodeKind → Option TransactionPathOutcome
kind_boundary NodeKind.commit = some TransactionPathOutcome.explicit_commit
kind_boundary NodeKind.rollback = some TransactionPathOutcome.explicit_rollback
kind_boundary _ = none

abbrev pub normal_outcome :
    CommitOnReturn → Option CallerTransactionContract → TransactionPathOutcome
normal_outcome CommitOnReturn.commits contract = TransactionPathOutcome.commit_on_return
normal_outcome _ (some contract) = TransactionPathOutcome.caller_contract_commit
normal_outcome _ none = TransactionPathOutcome.normal_exit_caller_controlled

abbrev pub exceptional_outcome : Option CallerTransactionContract → TransactionPathOutcome
exceptional_outcome (some contract) = TransactionPathOutcome.caller_contract_rollback
exceptional_outcome none = TransactionPathOutcome.exceptional_escape

module _ (cfg : ControlFlowGraph) (ast_nodes : List AstNode) (commit_on_return : CommitOnReturn)
    (contract : Option CallerTransactionContract) where
  -- The boundary at a statement that a path reaches after the source.
  unfoldable pub statement_boundary : String → Option (TransactionPathOutcome × String)
  statement_boundary current = elim (ast_ref_of current cfg.nodes) [
    | none ↦ none
    | some ref ↦ elim (node_by_id ref ast_nodes) [
      | none ↦ none
      | some node ↦ elim (kind_boundary node.kind) [ none ↦ none | some o ↦ some (o, ref) ]
    ]
  ]

  -- The outcome and the boundary that the loop's body adds before it continues.
  unfoldable pub boundary : State → Option (TransactionPathOutcome × String)
  unfolding statement_boundary
  boundary (current, is_source) =
      if str_eq current cfg.normal_exit_ref
      then some (normal_outcome commit_on_return contract, current)
      else if str_eq current cfg.exceptional_exit_ref
      then some (exceptional_outcome contract, current)
      else if is_source
      then none
      else statement_boundary current

  -- The states that are pushed.
  unfoldable pub successors : State → List State
  unfolding edges_from
  successors (current, is_source) =
      collect (λ e. not (is_source && is_handler_edge e.edge_kind)) (λ e. (e.target_ref, false))
        (edges_from current cfg.edges)

  -- Each state is left once, so twice the edges and the first state are enough fuel.
  unfoldable pub first_boundaries : String → Option (Explored same_state boundary successors)
  unfolding explore
  first_boundaries source =
      explore same_state boundary successors (suc (length cfg.edges + length cfg.edges))
        ((source, true) ∷ []) (record { visited = []; found = [] })
