-- ===== src/Decision/Examples.antt =====
-- A model whose second rule matches while the first waits for a value.
use atlas_db_agent.Prelude.{some, [], ◌∷◌, ◌≡◌, refl, any, all, contains}
use atlas_db_agent.Prelude.Sorting.{sort}
use atlas_db_agent.Values.{Hashes, null}
use atlas_db_agent.Decision.Model.{holds, Output, Model, Request, EvaluationResult, matched}
use atlas_db_agent.Decision.Evaluator.{result, value_of, scan, by_priority, result_of, evaluate}
use atlas_db_agent.Decision.FirstMatch.{find_first, all_true, evaluate-find_first, evaluate-status}

abbrev hashes : Hashes
hashes = record {
  canonical_digest = λ v. "digest";
  canonical_json = λ v. "{}";
  loads = λ s. null;
  sha256_hex = λ s. s;
  gherkin_digest = some;
  canonical_timestamp = some;
}

abbrev reject : Output
reject = record {
  target = "P_STATUS";
  value_expression = some "'R'";
  effect_kind = "ASSIGNMENT";
  evidence_refs = [];
}

abbrev model : Model
model = record {
  predicates = "p" ∷ "q" ∷ [];
  rules =
      record { rule_id = "R2"; priority = 2; predicate_ids = "q" ∷ []; outputs = reject ∷ [] }
      ∷ record { rule_id = "R1"; priority = 1; predicate_ids = "p" ∷ "q" ∷ []; outputs = [] }
      ∷ [];
  content_digest = "M";
}

abbrev request : Request
request = record { model_digest = "M"; predicate_values = ("q", holds) ∷ [] }

abbrev answer : EvaluationResult
answer =
    let s = scan request.predicate_values (sort by_priority model.rules) in
    result_of hashes "M" s.evaluated s.blockers s.matched_rule

answered : evaluate hashes model request ≡ result answer
unfolding evaluate all contains
answered = refl

evaluate-find_first_example : (answer.matched_rule_id ≡ some "R2") × (answer.outputs ≡ reject ∷ [])
unfolding find_first all_true value_of sort all
evaluate-find_first_example = evaluate-find_first hashes model request answer answered

evaluate-status_example : answer.status ≡ matched
unfolding any all_true value_of all
evaluate-status_example = evaluate-status hashes model request answer answered
