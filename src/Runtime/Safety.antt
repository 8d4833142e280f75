-- ===== src/Runtime/Safety.antt =====
-- `RuntimeSafetyAssessor.assess` (runtime/safety.py).
use Prim.Native.String.{compare, slice, ◌++◌ as text_append}
use package.text.Mathlib.Text.{is_le}
use atlas_db_agent.Prelude.{
  Bool, true, false, not, ◌&&◌, ◌||◌, String, Option, none, some, List, [], ◌∷◌, ◌++◌, str_eq,
  if◌then◌else◌, nonempty, collect, unique,
}
use mathlib.Core.Option.{map as option_map}
use atlas_db_agent.Prelude.Sorting.{sort}
use atlas_db_agent.Values.{Hashes, flag, text, texts, object, field, dict}
use atlas_db_agent.Runtime.Kinds.{
  EffectKind, commit, rollback, call, EffectObservability, unresolved_effect_boundary,
  DynamicSqlResolutionStatus, partially_reconstructed, runtime_capture_required,
  unresolved_dynamic_sql, dynamic_variant_budget_exceeded, ParseOutcome, parses_complete,
  LiveVerificationEligibility, eligibility_value, db2_sandbox_allowed, manual_approval_required,
  prohibited, TransactionOwnership, ownership_value, executor_owned, caller_controlled,
  procedure_controlled, mixed, unknown_owner, RollbackContainment, containment_value, rollback_safe,
  caller_rollback_possible, not_guaranteed, unknown_containment, Effect, DynamicSqlSite,
  ProcedureAst, ParseResult, SemanticResult, Assessment, Texts,
}

abbrev pub is_commit : Effect → Bool
is_commit e = elim e.effect_kind [ commit ↦ true | _ ↦ false ]

abbrev pub is_rollback : Effect → Bool
is_rollback e = elim e.effect_kind [ rollback ↦ true | _ ↦ false ]

abbrev is_call : EffectKind → Bool
is_call call = true
is_call _ = false

abbrev is_unresolved_boundary : EffectObservability → Bool
is_unresolved_boundary unresolved_effect_boundary = true
is_unresolved_boundary _ = false

abbrev pub is_unresolved_call : Effect → Bool
is_unresolved_call e = is_call e.effect_kind && is_unresolved_boundary e.observability

abbrev unresolved_status : DynamicSqlResolutionStatus → Bool
unresolved_status partially_reconstructed = true
unresolved_status runtime_capture_required = true
unresolved_status unresolved_dynamic_sql = true
unresolved_status dynamic_variant_budget_exceeded = true
unresolved_status _ = false

abbrev pub is_unresolved_site : DynamicSqlSite → Bool
is_unresolved_site s = unresolved_status s.resolution_status

abbrev pub is_complete : ParseOutcome → Bool
is_complete parses_complete = true
is_complete _ = false

abbrev sorted_texts : List String → List String
sorted_texts = sort (λ a b. is_le (compare a b))

-- `(ast.commit_on_return or "UNKNOWN").upper()`, then one of three words.
abbrev or_unknown : Option String → String
or_unknown none = "UNKNOWN"
or_unknown (some s) = if str_eq s "" then "UNKNOWN" else s

abbrev known_word : String → String
known_word s = if str_eq s "YES" || str_eq s "NO" then s else "UNKNOWN"

-- One reason code for each test that holds.
abbrev when : Bool → String → List String → List String
when true code rest = code ∷ rest
when false code rest = rest

unfoldable pub reasons_of : Bool → Bool → Bool → Bool → Bool → List String
reasons_of complete commits on_return calls dynamic =
    when (not complete) "PARSER_RESULT_INCOMPLETE" (
      when commits "INTERNAL_COMMIT_PRESENT" (
        when on_return "COMMIT_ON_RETURN_PRESENT" (
          when calls "UNRESOLVED_CALL_BOUNDARY"
            (when dynamic "UNRESOLVED_DYNAMIC_SQL_BOUNDARY" []))))

unfoldable pub eligibility_of : Bool → Bool → Bool → Bool → Bool → LiveVerificationEligibility
eligibility_of complete commits on_return calls dynamic =
    if commits || on_return
    then prohibited
    else if not complete
    then prohibited
    else if calls || dynamic
    then manual_approval_required
    else db2_sandbox_allowed

-- The tests are: internal commits, rollbacks, COMMIT ON RETURN YES, and NO, unresolved calls and
-- unresolved dynamic SQL.
unfoldable pub ownership_of : Bool → Bool → Bool → Bool → Bool → Bool → TransactionOwnership
ownership_of commits rollbacks on_return never calls dynamic =
    if commits && rollbacks
    then mixed
    else if commits || on_return
    then procedure_controlled
    else if never && not calls && not dynamic
    then executor_owned
    else if never
    then caller_controlled
    else unknown_owner

abbrev is_executor_owned : TransactionOwnership → Bool
is_executor_owned executor_owned = true
is_executor_owned _ = false

unfoldable pub containment_of :
    Bool → Bool → Bool → Bool → TransactionOwnership → RollbackContainment
containment_of commits on_return calls dynamic ownership =
    if commits || on_return
    then not_guaranteed
    else if calls || dynamic
    then unknown_containment
    else if is_executor_owned ownership
    then rollback_safe
    else caller_rollback_possible

module _ (h : Hashes) (t : Texts) where
  unfoldable pub commit_on_return_of : ProcedureAst → String
  commit_on_return_of ast = known_word (t.upper (or_unknown ast.commit_on_return))

  -- The assessment of a procedure that has an AST.
  unfoldable pub assessment_of : ParseOutcome → ProcedureAst → SemanticResult → String → Assessment
  unfolding commit_on_return_of reasons_of eligibility_of ownership_of containment_of
  assessment_of outcome ast semantic identity_ref =
      let commits = sorted_texts (collect is_commit (λ e. e.source_node_ref) semantic.effects) in
      let rollbacks =
        sorted_texts (collect is_rollback (λ e. e.source_node_ref) semantic.effects) in
      let calls = sorted_texts (collect is_unresolved_call (λ e. e.effect_id) semantic.effects) in
      let dynamic =
        sorted_texts (collect is_unresolved_site (λ s. s.site_id) semantic.dynamic_sql_sites) in
      let word = commit_on_return_of ast in
      let on_return = str_eq word "YES" in
      let complete = is_complete outcome in
      let reasons =
        reasons_of complete (nonempty commits) on_return (nonempty calls) (nonempty dynamic) in
      let eligibility =
        eligibility_of complete (nonempty commits) on_return (nonempty calls) (nonempty dynamic) in
      let ownership =
        ownership_of (nonempty commits) (nonempty rollbacks) on_return (str_eq word "NO")
          (nonempty calls) (nonempty dynamic) in
      let containment =
        containment_of (nonempty commits) on_return (nonempty calls) (nonempty dynamic) ownership in
      let external = if nonempty calls || nonempty dynamic then "POSSIBLE" else "ABSENT" in
      let evidence = sorted_texts (unique (commits ++ rollbacks ++ calls ++ dynamic)) in
      let payload = dict (
        ("procedure_identity_ref", text identity_ref)
        ∷ ("internal_commit_present", flag (nonempty commits))
        ∷ ("explicit_rollback_present", flag (nonempty rollbacks))
        ∷ ("commit_on_return", text word)
        ∷ ("unresolved_call_boundaries", texts calls)
        ∷ ("unresolved_dynamic_boundaries", texts dynamic)
        ∷ ("external_side_effects_status", text external)
        ∷ ("transaction_ownership", text (ownership_value ownership))
        ∷ ("rollback_containment", text (containment_value containment))
        ∷ ("live_eligibility", text (eligibility_value eligibility))
        ∷ ("reason_codes", texts (sorted_texts reasons))
        ∷ ("evidence_refs", texts evidence)
        ∷ []) in
      let id =
        text_append "runtime-safety-"
          (slice (h.sha256_hex (h.canonical_digest (object payload))) 0 20) in
      record {
        assessment_id = id;
        procedure_identity_ref = identity_ref;
        internal_commit_present = nonempty commits;
        explicit_rollback_present = nonempty rollbacks;
        commit_on_return = word;
        unresolved_call_boundaries = calls;
        unresolved_dynamic_boundaries = dynamic;
        external_side_effects_status = external;
        transaction_ownership = ownership;
        rollback_containment = containment;
        live_eligibility = eligibility;
        reason_codes = sorted_texts reasons;
        evidence_refs = evidence;
        content_digest = h.canonical_digest (object (field "assessment_id" (text id) payload));
      }

  -- `none` where the code raises: there is no AST.
  unfoldable pub assess : ParseResult → SemanticResult → String → Option Assessment
  assess parsed semantic identity_ref =
      option_map (λ ast. assessment_of parsed.outcome ast semantic identity_ref) parsed.ast
