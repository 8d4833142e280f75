-- ===== src/Analysis/Nullability.antt =====
-- Whether a variable can be NULL: `DefiniteNullabilityAnalyzer` of analysis/nullability.py.
use text.Mathlib.Text.{starts_with}
use atlas_db_agent.Prelude.{
  Bool, true, false, not, ◌&&◌, ◌||◌, String, Option, none, some, List, [], ◌∷◌, ◌++◌, map, str_eq,
  if◌then◌else◌, collect, all, nonempty,
}
use atlas_db_agent.Prelude.Texts.{distinct, sort_on, join_by, identifier, last_with}
use atlas_db_agent.Analysis.Records.{
  NodeKind, IfArm, AstNode, ProcedureAst, DeclaredSymbol, SemanticFindingCode, SemanticFinding,
}

-- The methods of `str`, `sha256`, and the regular expressions that the analysis matches with.
pub record Patterns : Type 0 where
  pub sha256_hex : String → String
  pub upper : String → String
  pub strip : String → String
  pub squeeze : String → String
  pub is_literal : String → Bool
  pub steps_by : String → String → Bool
  pub is_count : String → Bool
  pub is_aggregate : String → Bool
  pub null_tests : String → List String
  pub count_text : List String → String

pub data NullabilityStatus : Type 0 where
  definitely_non_null possibly_null definitely_null unknown_nullability : NullabilityStatus

abbrev pub nullability_value : NullabilityStatus → String
nullability_value NullabilityStatus.definitely_non_null = "DEFINITELY_NON_NULL"
nullability_value NullabilityStatus.possibly_null = "POSSIBLY_NULL"
nullability_value NullabilityStatus.definitely_null = "DEFINITELY_NULL"
nullability_value NullabilityStatus.unknown_nullability = "UNKNOWN"

pub record QueryBinding : Type 0 where
  pub source_node_ref : String
  pub target_symbol : String
  pub projection_expression : Option String

-- One definition of a symbol.
pub record Definition : Type 0 where
  pub symbol : String
  pub node_ref : String
  pub status : NullabilityStatus

pub record SymbolNullabilityFact : Type 0 where
  pub fact_id : String
  pub symbol_name : String
  pub status : NullabilityStatus
  pub declaration_default_ref : String
  pub assignment_refs : List String
  pub evidence_refs : List String
  pub reason : String

abbrev pub is_concrete : NullabilityStatus → Bool
is_concrete NullabilityStatus.unknown_nullability = false
is_concrete _ = true

abbrev pub is_non_null : NullabilityStatus → Bool
is_non_null NullabilityStatus.definitely_non_null = true
is_non_null _ = false

abbrev pub is_null : NullabilityStatus → Bool
is_null NullabilityStatus.definitely_null = true
is_null _ = false

-- `_join`
unfoldable pub join : List NullabilityStatus → NullabilityStatus
join statuses =
    let concrete = collect is_concrete (λ s. s) statuses in
    if not (nonempty concrete)
    then NullabilityStatus.unknown_nullability
    else if all is_non_null concrete
    then NullabilityStatus.definitely_non_null
    else if all is_null concrete
    then NullabilityStatus.definitely_null
    else NullabilityStatus.possibly_null

module _ (p : Patterns) where
  -- `_default_status`
  abbrev pub default_status : Option String → NullabilityStatus
  default_status none = NullabilityStatus.definitely_null
  default_status (some e) =
      if str_eq (p.upper (p.strip e)) "NULL"
      then NullabilityStatus.definitely_null
      else NullabilityStatus.definitely_non_null

  -- `_expression_status`
  unfoldable pub expression_status : String → String → NullabilityStatus
  expression_status expression symbol =
      let text = p.squeeze expression in
      let up = p.upper text in
      if str_eq text ""
      then NullabilityStatus.unknown_nullability
      else if str_eq up "NULL"
      then NullabilityStatus.definitely_null
      else if p.is_literal text
      then NullabilityStatus.definitely_non_null
      else if starts_with up "CURRENT "
          || starts_with up "NEXT VALUE FOR "
          || starts_with up "COALESCE("
          || starts_with up "COUNT("
      then NullabilityStatus.definitely_non_null
      else if p.steps_by symbol up
      then NullabilityStatus.definitely_non_null
      else NullabilityStatus.possibly_null

  -- `_query_projection_status`
  unfoldable pub query_projection_status : Option String → NullabilityStatus
  query_projection_status none = NullabilityStatus.unknown_nullability
  query_projection_status (some expression) =
      let text = p.upper (p.squeeze expression) in
      if str_eq text ""
      then NullabilityStatus.unknown_nullability
      else if p.is_count text || starts_with text "COALESCE("
      then NullabilityStatus.definitely_non_null
      else if p.is_aggregate text
      then NullabilityStatus.possibly_null
      else if p.is_literal text
      then NullabilityStatus.definitely_non_null
      else NullabilityStatus.possibly_null

  abbrev pub same_target : String → String → QueryBinding → Option String
  same_target node_ref symbol b =
      if str_eq b.source_node_ref node_ref && str_eq (p.upper b.target_symbol) symbol
      then some ""
      else none

  -- `query_by_node_and_target.get((node.node_id, symbol))`, and its expression.
  abbrev pub projection_of : List QueryBinding → String → String → Option String
  projection_of bindings node_ref symbol =
      elim (last_with (same_target node_ref symbol) (λ b. b.projection_expression) "" bindings) [
        | none ↦ none
        | some e ↦ e
      ]

  abbrev pub opt_list : Option (List String) → List String
  opt_list none = []
  opt_list (some xs) = xs

  abbrev pub null_targets : String → Option (List String) → List Definition
  null_targets ref targets =
      map
        (λ t. record {
          symbol = p.upper t;
          node_ref = ref;
          status = NullabilityStatus.possibly_null;
        })
        (opt_list targets)

  -- What one node adds to `assignments`.
  unfoldable pub definitions_of : List QueryBinding → AstNode → List Definition
  unfolding expression_status query_projection_status
  definitions_of bindings node =
      elim node.assignment_binding [
        | none ↦ []
        | some b ↦
            (record {
              symbol = p.upper b.target_name;
              node_ref = node.node_id;
              status = expression_status b.expression_text (p.upper b.target_name);
            })
            ∷ []
      ]
      ++ map
          (λ t. record {
            symbol = p.upper t;
            node_ref = node.node_id;
            status = query_projection_status (projection_of bindings node.node_id (p.upper t));
          })
          (opt_list node.select_into_targets)
      ++ null_targets node.node_id node.execute_targets
      ++ null_targets node.node_id node.fetch_targets

  unfoldable pub assignments : List QueryBinding → List AstNode → List Definition
  unfolding definitions_of
  assignments bindings [] = []
  assignments bindings (n ∷ ns) = definitions_of bindings n ++ assignments bindings ns

  -- `assignments.get(symbol, [])`
  unfoldable pub values_of : String → List Definition → List Definition
  values_of symbol ds = collect (λ d. str_eq d.symbol symbol) (λ d. d) ds

  unfoldable pub status_of : List Definition → DeclaredSymbol → NullabilityStatus
  unfolding join values_of
  status_of ds declared = join (
      default_status declared.default_expression
      ∷ map (λ (d : Definition). d.status) (values_of (p.upper declared.symbol_name) ds))

  -- `_reason`
  abbrev pub reason_of : NullabilityStatus → List Definition → NullabilityStatus → String
  reason_of default values status = join_by "" (
      "Declaration starts "
      ∷ nullability_value default
      ∷ "; "
      ∷ p.count_text (map (λ (d : Definition). d.node_ref) values)
      ∷ " assignment/binding definition(s) yield "
      ∷ nullability_value status
      ∷ "."
      ∷ [])

  unfoldable pub fact_of : List Definition → DeclaredSymbol → SymbolNullabilityFact
  unfolding status_of values_of distinct
  fact_of ds declared =
      let symbol = p.upper declared.symbol_name in
      let values = values_of symbol ds in
      let refs = map (λ (d : Definition). d.node_ref) values in
      let status = status_of ds declared in
      let evidence = distinct [] (declared.source_ref ∷ refs) in
      record {
        fact_id =
            identifier p.sha256_hex "nullability-"
              (join_by "|" (symbol ∷ nullability_value status ∷ join_by "|" evidence ∷ []));
        symbol_name = symbol;
        status = status;
        declaration_default_ref = declared.source_ref;
        assignment_refs = refs;
        evidence_refs = evidence;
        reason = reason_of (default_status declared.default_expression) values status;
      }

  -- `status_by_symbol.get(normalized)`, and the first fact of a symbol.
  abbrev pub known_non_null : List SymbolNullabilityFact → String → Bool
  known_non_null facts symbol =
      elim (last_with (λ (f : SymbolNullabilityFact). some f.symbol_name) (λ f. f.status) symbol
        facts) [ none ↦ false | some s ↦ is_non_null s ]

  unfoldable pub evidence_of : List SymbolNullabilityFact → String → List String
  evidence_of [] symbol = []
  evidence_of (f ∷ fs) symbol =
      if str_eq f.symbol_name symbol then f.evidence_refs else evidence_of fs symbol

  unfoldable pub null_finding :
      List SymbolNullabilityFact → AstNode → IfArm → String → SemanticFinding
  unfolding evidence_of distinct
  null_finding facts node arm normalized = record {
    finding_id =
        identifier p.sha256_hex "finding-"
          (join_by "|" (node.node_id ∷ arm.arm_id ∷ normalized ∷ "IMPOSSIBLE_NULL" ∷ []));
    code = SemanticFindingCode.impossible_null_predicate;
    message = join_by "" (
        "Predicate " ∷ normalized
        ∷ " IS NULL is unreachable because all declaration and assignment definitions are non-null."
        ∷ []);
    evidence_node_refs = distinct [] (node.node_id ∷ evidence_of facts normalized);
    source_ranges = arm.source_range ∷ [];
    consequence = "The null-case scenario must be suppressed or explicitly marked unreachable.";
  }

  -- The symbols that the condition of an arm tests for NULL, in upper case.
  abbrev pub tested : IfArm → List String
  tested arm =
      map p.upper (p.null_tests (p.squeeze (elim arm.condition_text [ none ↦ "" | some c ↦ c ])))

  unfoldable pub arm_findings :
      List SymbolNullabilityFact → AstNode → List IfArm → List SemanticFinding
  unfolding null_finding
  arm_findings facts node [] = []
  arm_findings facts node (arm ∷ arms) =
      collect (known_non_null facts) (null_finding facts node arm) (tested arm)
      ++ arm_findings facts node arms

  abbrev pub region_findings : List SymbolNullabilityFact → AstNode → List SemanticFinding
  region_findings facts node = elim node.kind [
    | NodeKind.if_region ↦ elim node.if_arms [
      | none ↦ []
      | some arms ↦ arm_findings facts node arms
    ]
    | _ ↦ []
  ]

  unfoldable pub null_findings : List SymbolNullabilityFact → List AstNode → List SemanticFinding
  unfolding arm_findings
  null_findings facts [] = []
  null_findings facts (n ∷ ns) = region_findings facts n ++ null_findings facts ns

  unfoldable pub analyze_nullability :
      ProcedureAst → List QueryBinding → List SymbolNullabilityFact × List SemanticFinding
  unfolding assignments fact_of null_findings
  analyze_nullability ast bindings =
      let facts = map (fact_of (assignments bindings ast.nodes)) ast.declared_symbol_types in
      (
        sort_on (λ f. f.symbol_name) facts,
        sort_on (λ (f : SemanticFinding). f.finding_id) (null_findings facts ast.nodes),
      )
