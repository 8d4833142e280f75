-- ===== src/Analysis/Transaction.antt =====
-- The analysis of every effect of a procedure: `analyze` of analysis/transaction.py.
use mathlib.Core.Option.{map as option_map}
use atlas_db_agent.Prelude.{
  Bool, true, false, String, Option, none, some, List, [], ◌∷◌, ◌++◌, map, str_eq, if◌then◌else◌,
  collect,
}
use atlas_db_agent.Prelude.Texts.{
  sorted_set, distinct, sort_on, join_by, identifier, last_with, str_le,
}
use atlas_db_agent.Prelude.Sorting.{sort}
use atlas_db_agent.Analysis.Records.{
  NodeKind, AstNode, ProcedureAst, CfgNode, ControlFlowGraph, SourceRange, EffectKind,
  EffectCandidate, EffectObservability, TransactionPathOutcome, outcome_value,
  TransactionSurvivalClassification, CallerTransactionContract, Completeness,
  EffectTransactionAnalysis, CommitOnReturn, TransactionRegion, SemanticFindingCode,
  SemanticFinding,
}
use atlas_db_agent.Analysis.Boundaries.{node_by_id, first_boundaries}
use atlas_db_agent.Analysis.Survival.{among, classify, observability_of}

-- The names that the source uses for hashing and upper case.
pub record Texts : Type 0 where
  pub sha256_hex : String → String
  pub upper : String → String

-- `_commit_on_return`
unfoldable pub commit_on_return_of : Texts → Option String → CommitOnReturn
commit_on_return_of t none = CommitOnReturn.unknown
commit_on_return_of t (some value) =
    let normalized = t.upper (if str_eq value "" then "UNKNOWN" else value) in
    if str_eq normalized "YES"
    then CommitOnReturn.commits
    else if str_eq normalized "NO"
    then CommitOnReturn.keeps
    else CommitOnReturn.unknown

abbrev pub is_commit_node : AstNode → Bool
is_commit_node n = elim n.kind [ NodeKind.commit ↦ true | _ ↦ false ]

abbrev pub is_rollback_node : AstNode → Bool
is_rollback_node n = elim n.kind [ NodeKind.rollback ↦ true | _ ↦ false ]

abbrev pub survival_open : EffectObservability → Bool
survival_open EffectObservability.transaction_survival_unresolved = true
survival_open _ = false

-- The effects that the analysis is about.
abbrev pub is_dml_effect : EffectCandidate → Bool
is_dml_effect e = elim e.effect_kind [
  | EffectKind.dml ↦ true
  | EffectKind.dynamic_sql ↦ survival_open e.observability
  | _ ↦ false
]

-- The set of the outcomes found, each once.
unfoldable pub distinct_outcomes : List TransactionPathOutcome → List TransactionPathOutcome
distinct_outcomes [] = []
distinct_outcomes (o ∷ os) =
    let rest = distinct_outcomes os in if among os o then rest else o ∷ rest

-- `tuple(sorted(outcome_set, key=lambda value: value.value))`
abbrev pub sorted_outcomes : List TransactionPathOutcome → List TransactionPathOutcome
sorted_outcomes os = sort_on outcome_value (distinct_outcomes os)

-- The outcomes, the boundaries and the completeness of one effect.
pub record Surveyed : Type 0 where
  pub outcomes : List TransactionPathOutcome
  pub boundaries : List String
  pub completeness : Completeness

abbrev pub surveyed : List (TransactionPathOutcome × String) → Surveyed
surveyed [] = record {
  outcomes = TransactionPathOutcome.no_terminal_path ∷ [];
  boundaries = [];
  completeness = Completeness.partial;
}
surveyed (f ∷ found) = record {
  outcomes = sorted_outcomes (map (λ (o, _). o) (f ∷ found));
  boundaries = sorted_set (map (λ (_, ref). ref) (f ∷ found));
  completeness = Completeness.complete;
}

-- What `analyze` returns.
pub record Transactions : Type 0 where
  pub effects : List EffectCandidate
  pub regions : List TransactionRegion
  pub analyses : List EffectTransactionAnalysis
  pub findings : List SemanticFinding

abbrev pub code_value : SemanticFindingCode → String
code_value SemanticFindingCode.dml_transaction_survival_unresolved =
    "DML_TRANSACTION_SURVIVAL_UNRESOLVED"
code_value SemanticFindingCode.dml_may_commit_or_rollback = "DML_MAY_COMMIT_OR_ROLLBACK"
code_value SemanticFindingCode.dml_caller_controlled = "DML_CALLER_CONTROLLED"
code_value SemanticFindingCode.impossible_null_predicate = "IMPOSSIBLE_NULL_PREDICATE"

abbrev pub may_commit : Option (SemanticFindingCode × String × String)
may_commit = some (
  SemanticFindingCode.dml_may_commit_or_rollback,
  "DML can reach more than one transaction-survival outcome.",
  "The effect remains non-definitive and cannot be asserted as committed.",
)

abbrev pub by_caller : Option (SemanticFindingCode × String × String)
by_caller = some (
  SemanticFindingCode.dml_caller_controlled,
  "DML reaches procedure exit without an explicit commit in the analyzed procedure.",
  "Transaction survival remains controlled by the caller or external transaction context.",
)

module _ (t : Texts) (ast : ProcedureAst) (cfg : ControlFlowGraph)
    (contract : Option CallerTransactionContract) where
  abbrev pub region_id : String
  region_id = identifier t.sha256_hex "transaction-region-" ast.node_id

  unfoldable pub region_of : List EffectCandidate → TransactionRegion
  unfolding commit_on_return_of
  region_of effects = record {
    transaction_region_id = region_id;
    procedure_ast_ref = ast.node_id;
    commit_on_return = commit_on_return_of t ast.commit_on_return;
    effect_refs = sort str_le (collect is_dml_effect (λ e. e.effect_id) effects);
    explicit_commit_refs = sort str_le (collect is_commit_node (λ n. n.node_id) ast.nodes);
    explicit_rollback_refs = sort str_le (collect is_rollback_node (λ n. n.node_id) ast.nodes);
    analysis_completeness = Completeness.complete;
  }

  -- `cfg_by_ast.get(effect.source_node_ref)`
  abbrev pub cfg_of : String → Option String
  cfg_of ref = last_with (λ (n : CfgNode). n.ast_node_ref) (λ n. n.cfg_node_id) ref cfg.nodes

  -- `none`: the search ran out of fuel.
  unfoldable pub survey : EffectCandidate → Option Surveyed
  unfolding first_boundaries commit_on_return_of
  survey effect = elim (cfg_of effect.source_node_ref) [
    | none ↦ some (surveyed [])
    | some source ↦
        option_map (λ e. surveyed e.found)
          (first_boundaries cfg ast.nodes (commit_on_return_of t ast.commit_on_return) contract
            source)
  ]

  unfoldable pub analysis_of : EffectCandidate → Surveyed → EffectTransactionAnalysis
  unfolding classify
  analysis_of effect s = record {
    analysis_id =
        identifier t.sha256_hex "transaction-analysis-"
          (join_by "|" (effect.effect_id ∷ region_id ∷ map outcome_value s.outcomes));
    effect_ref = effect.effect_id;
    transaction_region_ref = region_id;
    reachable_outcomes = s.outcomes;
    classification = classify s.outcomes;
    boundary_node_refs = s.boundaries;
    analysis_completeness = s.completeness;
    evidence_refs = sorted_set (
        effect.source_node_ref ∷ s.boundaries
        ++ elim contract [ none ↦ [] | some c ↦ c.evidence_refs ]);
    caller_transaction_contract_ref = option_map (λ c. c.contract_id) contract;
    caller_transaction_contract_digest = option_map (λ c. c.content_digest) contract;
  }

  -- The code, the message and the consequence of a classification, if it is a finding.
  abbrev pub finding_text :
      TransactionSurvivalClassification → Option (SemanticFindingCode × String × String)
  finding_text TransactionSurvivalClassification.may_commit_or_rollback = may_commit
  finding_text TransactionSurvivalClassification.may_commit_rollback_or_caller_controlled =
      may_commit
  finding_text TransactionSurvivalClassification.may_commit_or_caller_controlled = may_commit
  finding_text TransactionSurvivalClassification.caller_controlled = by_caller
  finding_text TransactionSurvivalClassification.caller_controlled_or_exceptional = by_caller
  finding_text TransactionSurvivalClassification.unresolved = some (
    SemanticFindingCode.dml_transaction_survival_unresolved,
    "DML transaction survival could not be resolved.",
    "The DML is not classified as committed or rolled back.",
  )
  finding_text _ = none

  abbrev pub ranges_of : List String → List SourceRange
  ranges_of [] = []
  ranges_of (r ∷ rs) = elim (node_by_id r ast.nodes) [
    | none ↦ ranges_of rs
    | some n ↦ n.source_range ∷ ranges_of rs
  ]

  abbrev pub is_ast_ref : String → Bool
  is_ast_ref r = elim (node_by_id r ast.nodes) [ none ↦ false | some _ ↦ true ]

  -- `_finding_for_analysis`
  unfoldable pub finding_for_analysis :
      EffectCandidate → EffectTransactionAnalysis → Option SemanticFinding
  unfolding distinct
  finding_for_analysis effect analysis = elim (node_by_id effect.source_node_ref ast.nodes) [
    | none ↦ none
    | some _ ↦ elim (finding_text analysis.classification) [
      | none ↦ none
      | some (code, message, consequence) ↦
          let evidence =
            distinct []
              (effect.source_node_ref ∷ collect is_ast_ref (λ r. r) analysis.evidence_refs) in
          some (record {
            finding_id =
                identifier t.sha256_hex "semantic-finding-"
                  (join_by "|" (code_value code ∷ effect.effect_id ∷ analysis.analysis_id ∷ []));
            code = code;
            message = message;
            evidence_node_refs = evidence;
            source_ranges = ranges_of evidence;
            consequence = consequence;
          })
    ]
  ]

  -- The loop over `dml_effects`: each effect with its analysis.
  unfoldable pub analyses_of :
      List EffectCandidate → Option (List (EffectCandidate × EffectTransactionAnalysis))
  unfolding survey analysis_of
  analyses_of [] = some []
  analyses_of (e ∷ es) =
      let rest = analyses_of es in
      if is_dml_effect e
      then elim (survey e) [
        | none ↦ none
        | some s ↦ option_map (λ pairs. (e, analysis_of e s) ∷ pairs) rest
      ]
      else rest

  abbrev pub findings_of : List (EffectCandidate × EffectTransactionAnalysis) → List SemanticFinding
  findings_of [] = []
  findings_of ((e, a) ∷ pairs) = elim (finding_for_analysis e a) [
    | none ↦ findings_of pairs
    | some f ↦ f ∷ findings_of pairs
  ]

  -- `analysis_by_effect.get(effect.effect_id)`, and the copy of the effect.
  unfoldable pub updated :
      List (EffectCandidate × EffectTransactionAnalysis) → EffectCandidate → EffectCandidate
  updated pairs effect =
      elim (last_with (λ (p : EffectCandidate × EffectTransactionAnalysis). some p.0.effect_id)
        (λ p. p.1) effect.effect_id pairs) [
          | none ↦ effect
          | some a ↦ record effect {
            observability = observability_of a.classification;
            transaction_analysis_ref = some a.analysis_id;
          }
        ]

  unfoldable pub analyze : List EffectCandidate → Option Transactions
  unfolding analyses_of updated finding_for_analysis region_of
  analyze effects =
      option_map
        (λ pairs. record {
          effects = sort_on (λ e. e.effect_id) (map (updated pairs) effects);
          regions = region_of effects ∷ [];
          analyses = sort_on (λ a. a.analysis_id) (map (λ (_, a). a) pairs);
          findings = sort_on (λ f. f.finding_id) (findings_of pairs);
        })
        (analyses_of effects)
