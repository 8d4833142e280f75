-- ===== src/Decision/Evaluator.antt =====
-- `ModelDrivenDecisionEvaluator.evaluate` (decision/evaluator.py).
use Prim.Native.String.{compare}
use package.text.Mathlib.Text.{is_le}
use atlas_db_agent.Prelude.{
  leb, Bool, true, false, not, String, Option, none, some, List, [], ◌∷◌, ◌++◌, map, all, any,
  contains, unique, nonempty, str_eq, if◌then◌else◌,
}
use atlas_db_agent.Prelude.Sorting.{sort}
use atlas_db_agent.Values.{Hashes, text, object, dict, opt_text, texts}
use atlas_db_agent.Decision.Model.{
  TruthValue, holds, fails, unknown, Output, Rule, Model, Request, Status, matched, not_matched,
  inconclusive, no_match, status_value, EvaluatedRule, EvaluationResult, output_value,
  evaluated_value, arrayed,
}

-- `DecisionModelError`
pub data Evaluated : Type 0 where
  result : EvaluationResult → Evaluated
  digest_mismatch : Evaluated
  unknown_predicates : Evaluated

-- `request.predicate_values.get(pid, UNKNOWN)`
unfoldable pub value_of : List (String × TruthValue) → String → TruthValue
value_of [] p = unknown
value_of ((q, v) ∷ vs) p = if str_eq q p then v else value_of vs p

abbrev pub is_false : TruthValue → Bool
is_false fails = true
is_false _ = false

abbrev pub is_true : TruthValue → Bool
is_true holds = true
is_true _ = false

abbrev pub is_unknown : TruthValue → Bool
is_unknown unknown = true
is_unknown _ = false

module _ (vs : List (String × TruthValue)) where
  unfoldable pub rule_status : Rule → Status
  rule_status r =
      if any (λ p. is_false (value_of vs p)) r.predicate_ids
      then not_matched
      else if all (λ p. is_true (value_of vs p)) r.predicate_ids
      then matched
      else inconclusive

  -- The predicates of a rule whose value is UNKNOWN.
  unfoldable pub unknown_ids : List String → List String
  unknown_ids [] = []
  unknown_ids (p ∷ ps) =
      let rest = unknown_ids ps in if is_unknown (value_of vs p) then p ∷ rest else rest

  -- The dictionary of the rule's values: one entry for each identifier.
  abbrev pub valued : List String → List (String × TruthValue)
  valued ps = map (λ p. (p, value_of vs p)) (unique ps)

  abbrev pub evaluated_rule : Rule → EvaluatedRule
  evaluated_rule r = record {
    rule_id = r.rule_id;
    priority = r.priority;
    status = rule_status r;
    predicate_values = valued r.predicate_ids;
  }

  -- The loop: the rules that were evaluated, the blockers, and the rule that matched.
  pub record Scan : Type 0 where
    pub evaluated : List EvaluatedRule
    pub blockers : List String
    pub matched_rule : Option Rule

  abbrev pub step : Rule → Status → Scan → Scan
  step r matched rest = record {
    evaluated = evaluated_rule r ∷ [];
    blockers = [];
    matched_rule = some r;
  }
  step r inconclusive rest = record {
    evaluated = evaluated_rule r ∷ rest.evaluated;
    blockers = unknown_ids r.predicate_ids ++ rest.blockers;
    matched_rule = rest.matched_rule;
  }
  step r _ rest = record {
    evaluated = evaluated_rule r ∷ rest.evaluated;
    blockers = rest.blockers;
    matched_rule = rest.matched_rule;
  }

  unfoldable pub scan : List Rule → Scan
  unfolding rule_status unknown_ids
  scan [] = record { evaluated = []; blockers = []; matched_rule = none }
  scan (r ∷ rs) = let rest = scan rs in step r (rule_status r) rest

abbrev pub by_priority : Rule → Rule → Bool
by_priority r s = leb r.priority s.priority

abbrev pub final_status : Option Rule → List String → Status
final_status (some r) blockers = matched
final_status none blockers = if nonempty blockers then inconclusive else no_match

abbrev pub id_of : Option Rule → Option String
id_of none = none
id_of (some r) = some r.rule_id

abbrev pub outputs_of : Option Rule → List Output
outputs_of none = []
outputs_of (some r) = r.outputs

module _ (h : Hashes) where
  -- The result, from what the loop left.
  unfoldable pub result_of :
      String → List EvaluatedRule → List String → Option Rule → EvaluationResult
  result_of model_digest evaluated blockers found =
      let sorted = sort (λ a b. is_le (compare a b)) (unique blockers) in
      record {
        model_digest = model_digest;
        status = final_status found blockers;
        matched_rule_id = id_of found;
        outputs = outputs_of found;
        evaluated_rules = evaluated;
        blockers = sorted;
        content_digest = h.canonical_digest (
            object (
              dict (
                ("schema_version", text "decision-evaluation-result-1.0")
                ∷ ("model_digest", text model_digest)
                ∷ ("status", text (status_value (final_status found blockers)))
                ∷ ("matched_rule_id", opt_text (id_of found))
                ∷ ("outputs", arrayed (map output_value (outputs_of found)))
                ∷ ("evaluated_rules", arrayed (map evaluated_value evaluated))
                ∷ ("blockers", texts sorted)
                ∷ [])));
      }

  unfoldable pub evaluate : Model → Request → Evaluated
  unfolding scan result_of
  evaluate m request =
      if not (str_eq request.model_digest m.content_digest)
      then digest_mismatch
      else if not (all (λ (p, v). contains p m.predicates) request.predicate_values)
      then unknown_predicates
      else (let s = scan request.predicate_values (sort by_priority m.rules) in
          result (result_of m.content_digest s.evaluated s.blockers s.matched_rule))
