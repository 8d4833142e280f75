-- ===== src/Governance/Baselines.antt =====
-- `register_baseline`, `_scenario_signature` and `compare_to_baseline`.
use atlas_db_agent.Prelude.{
  Bool, true, false, not, ◌&&◌, String, Option, none, some, List, [], ◌∷◌, ◌++◌, map, str_eq,
  if◌then◌else◌,
}
use atlas_db_agent.Prelude.Sorting.{sort, first}
use atlas_db_agent.Values.{
  Hashes, Value, null, text, array, object, Items, nil, cons, Fields, done, field, dict,
}
use atlas_db_agent.Governance.Rows.{
  is_scenario_spec, StoredArtifact, Baseline, reference_baseline_cached,
}
use atlas_db_agent.Governance.Session.{
  Exec, pure, or_raise, session, ◌>>=◌, ◌>>◌, not_a_baseline, validation_error,
}
use atlas_db_agent.Governance.Audit.{append_event}
use atlas_db_agent.Governance.Tables.{
  short_id, str_le, baseline_digest, insert_baseline, ensure_idempotent_binding,
}
use atlas_db_agent.Governance.Admission.{get_artifact}

-- The behavior of an identity-bound ScenarioSpec: `artifact_type == SCENARIO_SPEC` and a
-- `behavior_id` that is neither None nor empty.
truthy : Option String → Option String
truthy none = none
truthy (some b) = if str_eq b "" then none else some b

unfoldable pub bound_behavior : StoredArtifact → Option String
unfolding truthy
bound_behavior r = if is_scenario_spec r.artifact_type then truthy r.behavior_id else none

-- `payload.get(key)`
unfoldable pub field_at : String → Fields → Value
field_at k done = null
field_at k (field j v fs) = if str_eq j k then v else field_at k fs

unfoldable pub get : String → Value → Value
get k (object fs) = field_at k fs
get k _ = null

elements : Items → List Value
elements nil = []
elements (cons v vs) = v ∷ elements vs

-- `payload.get(key, [])`, for a key that holds a list.
pub listed : Value → List Value
listed (array vs) = elements vs
listed _ = []

pub items_of : List Value → Items
items_of [] = nil
items_of (v ∷ vs) = cons v (items_of vs)

precondition : Value → Value
precondition item = object (
    dict (
      ("technical_fact_ref", get "technical_fact_ref" item)
      ∷ ("modality", get "modality" item)
      ∷ ("constraint_assessment_ref", get "constraint_assessment_ref" item)
      ∷ []))

-- `effective_from <= at AND (effective_to IS NULL OR effective_to > at)`
still_effective : String → Option String → Bool
still_effective at none = true
still_effective at (some to) = not (str_le to at)

unfoldable pub is_effective : String → String → Baseline → Bool
unfolding still_effective
is_effective behavior at b =
    str_eq b.behavior_id behavior && str_le b.effective_from at && still_effective at b.effective_to

-- `WHERE …`, the last inserted row first.
unfoldable pub effective_baselines : String → String → List Baseline → List Baseline
effective_baselines behavior at [] = []
effective_baselines behavior at (b ∷ bs) =
    let rest = effective_baselines behavior at bs in
    if is_effective behavior at b then rest ++ b ∷ [] else rest

-- A NULL is less than any text.
abbrev until_le : Option String → Option String → Bool
until_le none _ = true
until_le (some s) none = false
until_le (some s) (some t) = str_le s t

-- `ORDER BY b.effective_from DESC`: SQLite reads the index on behavior, `effective_from` and
-- `effective_to` from its end, so that of equal keys the row inserted last is first.
abbrev pub newer_first : Baseline → Baseline → Bool
newer_first a b =
    if str_eq a.effective_from b.effective_from
    then until_le b.effective_to a.effective_to
    else str_le b.effective_from a.effective_from

unfoldable pub effective_baseline : String → String → List Baseline → Option Baseline
unfolding effective_baselines
effective_baseline behavior at bs = first (sort newer_first (effective_baselines behavior at bs))

module _ (h : Hashes) where
  json_le : Value → Value → Bool
  json_le v w = str_le (h.canonical_json v) (h.canonical_json w)

  sorted_items : List Value → Value
  sorted_items vs = array (items_of (sort json_le vs))

  unfoldable pub scenario_signature : Value → String
  unfolding get field_at listed elements items_of precondition json_le sorted_items
  scenario_signature payload = h.canonical_digest (
      object (
        dict (
          ("behavior_id", get "behavior_id" payload)
          ∷ ("procedure_identity_ref", get "procedure_identity_ref" payload)
          ∷ ("action", get "action" payload)
          ∷ (
            "preconditions",
            sorted_items (map precondition (listed (get "preconditions" payload))),
          )
          ∷ ("expected_effects", sorted_items (listed (get "expected_effects" payload)))
          ∷ (
            "alternative_or_conditional_effects",
            sorted_items (listed (get "alternative_or_conditional_effects" payload)),
          )
          ∷ [])))

  -- The digest is taken over `effective_from` as it was given; the model holds the canonical one.
  unfoldable pub registration : String → String → String → String → String → Baseline
  registration artifact_id behavior authority_ref effective_from stored_from =
      let id = short_id h "baseline-" (artifact_id ∷ authority_ref ∷ effective_from ∷ []) in
      record {
        registration_id = id;
        artifact_id = artifact_id;
        behavior_id = behavior;
        authority_ref = authority_ref;
        effective_from = stored_from;
        effective_to = none;
        content_digest = h.canonical_digest (
            object (
              dict (
                ("registration_id", text id)
                ∷ ("artifact_id", text artifact_id)
                ∷ ("behavior_id", text behavior)
                ∷ ("authority_ref", text authority_ref)
                ∷ ("effective_from", text effective_from)
                ∷ ("effective_to", null)
                ∷ [])));
      }

  -- The session of `register_baseline`, after the idempotence check.
  unfoldable pub store_baseline : Baseline → String → Bool → Exec (Unit {0})
  store_baseline b actor_ref true = pure tt
  store_baseline b actor_ref false = do
    insert_baseline b
    append_event h reference_baseline_cached b.artifact_id actor_ref b.effective_from
        b.content_digest
    pure tt

  unfoldable pub baseline_session : Baseline → String → Exec (Unit {0})
  baseline_session b actor_ref db =
      (do
        known ←
            ensure_idempotent_binding (baseline_digest b.registration_id db.baselines)
              b.content_digest
        store_baseline b actor_ref known)
        db

  unfoldable pub register_baseline : String → String → String → String → Exec Baseline
  register_baseline artifact_id authority_ref effective_from actor_ref = do
    got ← get_artifact h artifact_id
    behavior ← or_raise not_a_baseline (bound_behavior got.0)
    stored_from ← or_raise validation_error (h.canonical_timestamp effective_from)
    let b = registration artifact_id behavior authority_ref effective_from stored_from
    session (baseline_session b actor_ref)
    pure b
