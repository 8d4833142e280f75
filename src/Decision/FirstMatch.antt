-- ===== src/Decision/FirstMatch.antt =====
-- What the loop of `evaluate` finds.
use atlas_db_agent.Prelude.{
  Bool, true, false, not, ◌&&◌, ◌||◌, String, Option, none, some, List, [], ◌∷◌, ◌++◌, ◌≡◌, refl,
  ap, sym, ◌∙◌, arith, all, any, nonempty, if◌then◌else◌, Bool-cases, ◌⊎◌, inl, inr,
}
use atlas_db_agent.Prelude.Sorting.{sort, any-sort}
use atlas_db_agent.Values.{Hashes}
use atlas_db_agent.Decision.Model.{
  TruthValue, holds, fails, unknown, Rule, Model, Request, matched, not_matched, inconclusive,
  no_match, EvaluationResult,
}
use atlas_db_agent.Decision.Evaluator.{
  result, digest_mismatch, unknown_predicates, value_of, is_false, is_true, is_unknown, rule_status,
  unknown_ids, scan, by_priority, final_status, id_of, outputs_of, result_of, evaluate,
}

-- The first element with a property.
unfoldable pub find_first {ℓ} : {A : Type ℓ} → (A → Bool) → List A → Option A
find_first p [] = none
find_first p (x ∷ xs) = if p x then some x else find_first p xs

module _ (vs : List (String × TruthValue)) where
  -- Every predicate of the rule is TRUE; some is UNKNOWN and none is FALSE.
  unfoldable pub all_true : Rule → Bool
  all_true r = all (λ p. is_true (value_of vs p)) r.predicate_ids

  unfoldable pub undecided : Rule → Bool
  undecided r =
      any (λ p. is_unknown (value_of vs p)) r.predicate_ids
      && not (any (λ p. is_false (value_of vs p)) r.predicate_ids)

  all-not-any :
      (ps : List String)
      → all (λ p. is_true (value_of vs p)) ps ≡ (
          not (any (λ p. is_unknown (value_of vs p)) ps)
          && not (any (λ p. is_false (value_of vs p)) ps))
  unfolding all any
  all-not-any [] = refl
  all-not-any (p ∷ ps) = one (value_of vs p) _ _ (all-not-any ps)
    where
      one :
          (v : TruthValue) {a : Bool} (u f : Bool)
          → a ≡ (not u && not f)
          → (is_true v && a) ≡ (not (is_unknown v || u) && not (is_false v || f))
      one holds u f e = e
      one fails u f e = ground arith
      one unknown u f e = refl

  nonempty-unknown_ids :
      (ps : List String) → nonempty (unknown_ids vs ps) ≡ any (λ p. is_unknown (value_of vs p)) ps
  unfolding unknown_ids any
  nonempty-unknown_ids [] = refl
  nonempty-unknown_ids (p ∷ ps) = ground (arith, nonempty-unknown_ids ps)

  rule_status_lem :
      (r : Rule)
      → rule_status vs r
        ≡ (if all_true r then matched else if undecided r then inconclusive else not_matched)
  unfolding rule_status all_true undecided
  rule_status_lem r = ground (arith, all-not-any r.predicate_ids)

  matched_rule-scan : (rs : List Rule) → (scan vs rs).matched_rule ≡ find_first all_true rs
  unfolding scan find_first
  matched_rule-scan [] = refl
  matched_rule-scan (r ∷ rs) = rw (rule_status_lem r) (ground (arith, matched_rule-scan rs))

  nonempty-concat : (xs ys : List String) → nonempty (xs ++ ys) ≡ (nonempty xs || nonempty ys)
  nonempty-concat [] ys = refl
  nonempty-concat (x ∷ xs) ys = refl

  undecided-unknown_ids :
      (r : Rule) → undecided r ≡ true → nonempty (unknown_ids vs r.predicate_ids) ≡ true
  unfolding undecided
  undecided-unknown_ids r e = ground (arith, nonempty-unknown_ids r.predicate_ids)

  -- When no rule matches, the loop has seen them all.
  nonempty-blockers :
      (rs : List Rule) → any all_true rs ≡ false → nonempty (scan vs rs).blockers ≡ any undecided rs
  unfolding scan any
  nonempty-blockers [] e = refl
  nonempty-blockers (r ∷ rs) e = rw (rule_status_lem r) (
      ground (
        arith,
        nonempty-concat (unknown_ids vs r.predicate_ids) (scan vs rs).blockers,
        undecided-unknown_ids r,
        nonempty-blockers rs,
      ))

find_first-any {ℓ} :
    {A : Type ℓ} (p : A → Bool) (xs : List A)
    → ((find_first p xs ≡ none) × (any p xs ≡ false))
      ⊎ ((x : A) × (find_first p xs ≡ some x) × (any p xs ≡ true))
unfolding find_first any
find_first-any p [] = inl (refl, refl)
find_first-any p (x ∷ xs) = elim (Bool-cases (p x)) [
  | inl y ↦ inr (x, rw y refl, rw y refl)
  | inr n ↦ elim (find_first-any p xs) [
    | inl (f, e) ↦ inl (rw n f, rw n e)
    | inr (z, f, e) ↦ inr (z, rw n f, rw n e)
  ]
]

result-checked :
    (a b : Bool) {x r : EvaluationResult}
    → (if not a then digest_mismatch else if not b then unknown_predicates else result x) ≡ result r
    → x ≡ r
result-checked true true e = cc e
result-checked true false e = absurd (ground arith)
result-checked false b e = absurd (ground arith)

-- The result that `evaluate` returns, by the rules alone.
module _ (h : Hashes) (m : Model) (request : Request) (r : EvaluationResult) where
  evaluate-scan :
      evaluate h m request ≡ result r
      → let s = scan request.predicate_values (sort by_priority m.rules) in
        result_of h m.content_digest s.evaluated s.blockers s.matched_rule ≡ r
  unfolding evaluate
  evaluate-scan e = result-checked _ _ e

  -- When `evaluate` returns a result, the rule that is reported, with its outputs, is the first one
  -- by priority whose predicates are all TRUE, and there is none exactly when there is no such
  -- rule.
  pub evaluate-find_first :
      evaluate h m request ≡ result r
      → let found = find_first (all_true request.predicate_values) (sort by_priority m.rules) in
        (r.matched_rule_id ≡ id_of found) × (r.outputs ≡ outputs_of found)
  unfolding result_of
  evaluate-find_first e =
      let q = evaluate-scan e in
      let f = matched_rule-scan request.predicate_values (sort by_priority m.rules) in
      (
        ap (λ x. x.matched_rule_id) (sym q) ∙ ap id_of f,
        ap (λ x. x.outputs) (sym q) ∙ ap outputs_of f,
      )

  -- When `evaluate` returns a result, whatever the order of the rules, the status is MATCHED when a
  -- rule has all its predicates TRUE, else INCONCLUSIVE when a rule has an UNKNOWN predicate and no
  -- FALSE one, else NO_MATCH.
  pub evaluate-status :
      evaluate h m request ≡ result r
      → r.status ≡ (
          if any (all_true request.predicate_values) m.rules
          then matched
          else if any (undecided request.predicate_values) m.rules
          then inconclusive
          else no_match)
  unfolding result_of
  evaluate-status e =
      let vs = request.predicate_values in
      let rules = sort by_priority m.rules in
      let q : final_status (scan vs rules).matched_rule (scan vs rules).blockers ≡ r.status =
        ap (λ x. x.status) (evaluate-scan e) in
      sym q
      ∙ rw (matched_rule-scan vs rules) (elim (find_first-any (all_true vs) rules) [
        | inl (f, nowhere) ↦
            rw
              (
                f,
                nonempty-blockers vs rules nowhere,
                sym (any-sort by_priority (all_true vs) m.rules) ∙ nowhere,
                any-sort by_priority (undecided vs) m.rules,
              )
              refl
        | inr (x, f, somewhere) ↦
            rw (f, sym (any-sort by_priority (all_true vs) m.rules) ∙ somewhere) refl
      ])
