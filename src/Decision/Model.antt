-- ===== src/Decision/Model.antt =====
-- The decision model and the result of its evaluation (decision/models.py).
use atlas_db_agent.Prelude.{
  ℕ, ◌==◌, Bool, true, not, ◌&&◌, String, Option, List, [], ◌∷◌, map, all, any, contains,
}
use atlas_db_agent.Values.{
  Value, text, number, object, array, Items, nil, cons, dict, opt_text, texts,
}

pub data TruthValue : Type 0 where
  holds fails unknown : TruthValue

unfoldable pub truth_value : TruthValue → String
truth_value holds = "TRUE"
truth_value fails = "FALSE"
truth_value unknown = "UNKNOWN"

-- `DecisionPredicate` is read for its identifier only, which stands for it.
pub record Output : Type 0 where
  pub target : String
  pub value_expression : Option String
  pub effect_kind : String
  pub evidence_refs : List String

pub record Rule : Type 0 where
  pub rule_id : String
  pub priority : ℕ
  pub predicate_ids : List String
  pub outputs : List Output

pub record Model : Type 0 where
  pub predicates : List String
  pub rules : List Rule
  pub content_digest : String

pub record Request : Type 0 where
  pub model_digest : String
  pub predicate_values : List (String × TruthValue)

pub data Status : Type 0 where
  matched not_matched inconclusive no_match : Status

unfoldable pub status_value : Status → String
status_value matched = "MATCHED"
status_value not_matched = "NOT_MATCHED"
status_value inconclusive = "INCONCLUSIVE"
status_value no_match = "NO_MATCH"

pub record EvaluatedRule : Type 0 where
  pub rule_id : String
  pub priority : ℕ
  pub status : Status
  pub predicate_values : List (String × TruthValue)

pub record EvaluationResult : Type 0 where
  pub model_digest : String
  pub status : Status
  pub matched_rule_id : Option String
  pub outputs : List Output
  pub evaluated_rules : List EvaluatedRule
  pub blockers : List String
  pub content_digest : String

-- `len(xs) == len(set(xs))`
abbrev number_in : ℕ → List ℕ → Bool
number_in n ns = any (λ m. m == n) ns

unfoldable pub distinct : List ℕ → Bool
distinct [] = true
distinct (n ∷ ns) = not (number_in n ns) && distinct ns

-- `validate_refs`: the priorities differ, and every rule names predicates of the model.
unfoldable pub validate_refs : Model → Bool
unfolding distinct
validate_refs m =
    distinct (map (λ r. r.priority) m.rules)
    && all (λ r. all (λ p. contains p m.predicates) r.predicate_ids) m.rules

-- The dumps that are hashed.
items : List Value → Items
items [] = nil
items (v ∷ vs) = cons v (items vs)

unfoldable pub output_value : Output → Value
output_value o = object (
    dict (
      ("target", text o.target)
      ∷ ("value_expression", opt_text o.value_expression)
      ∷ ("effect_kind", text o.effect_kind)
      ∷ ("evidence_refs", texts o.evidence_refs)
      ∷ []))

unfoldable pub evaluated_value : EvaluatedRule → Value
evaluated_value e = object (
    dict (
      ("rule_id", text e.rule_id)
      ∷ ("priority", number e.priority)
      ∷ ("status", text (status_value e.status))
      ∷ (
        "predicate_values",
        object (dict (map (λ (p, v). (p, text (truth_value v))) e.predicate_values)),
      )
      ∷ []))

unfoldable pub arrayed : List Value → Value
unfolding items
arrayed vs = array (items vs)
