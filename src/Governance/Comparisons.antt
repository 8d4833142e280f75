-- ===== src/Governance/Comparisons.antt =====
-- `compare_to_baseline`.
use atlas_db_agent.Prelude.{String, Option, none, some, [], ◌∷◌, str_eq, if◌then◌else◌}
use atlas_db_agent.Values.{Hashes, Value, text, array, object, dict, opt_text}
use atlas_db_agent.Governance.Rows.{
  StoredArtifact, Baseline, ComparisonStatus, status_value, match, conflict, no_baseline,
  Comparison, baseline_compared,
}
use atlas_db_agent.Governance.Session.{
  Exec, pure, or_raise, session, ◌>>=◌, ◌>>◌, not_a_candidate, validation_error,
}
use atlas_db_agent.Governance.Audit.{append_event}
use atlas_db_agent.Governance.Tables.{short_id, insert_or_ignore_comparison}
use atlas_db_agent.Governance.Admission.{get_artifact}
use atlas_db_agent.Governance.Baselines.{
  bound_behavior, get, listed, items_of, scenario_signature, effective_baseline,
}

-- What `compare_to_baseline` finds out: the baseline's identifier and signature, the status and
-- the classification.
pub record Verdict : Type 0 where
  pub baseline_artifact_id : Option String
  pub baseline_signature : Option String
  pub status : ComparisonStatus
  pub classification : Option String

unfoldable pub verdict_of : String → String → String → Verdict
verdict_of candidate_signature baseline_id signature =
    if str_eq signature candidate_signature
    then record {
      baseline_artifact_id = some baseline_id;
      baseline_signature = some signature;
      status = match;
      classification = none;
    }
    else record {
      baseline_artifact_id = some baseline_id;
      baseline_signature = some signature;
      status = conflict;
      classification = some "BASELINE_BEHAVIOR_VIOLATION_CANDIDATE";
    }

-- An f-string prints None as a word.
abbrev pub printed : Option String → String
printed none = "None"
printed (some s) = s

module _ (h : Hashes) where
  unfoldable pub verdict : String → Option Baseline → Exec Verdict
  unfolding verdict_of
  verdict candidate_signature none = pure (record {
    baseline_artifact_id = none;
    baseline_signature = none;
    status = no_baseline;
    classification = none;
  })
  verdict candidate_signature (some b) = do
    got ← get_artifact h b.artifact_id
    pure (verdict_of candidate_signature b.artifact_id (scenario_signature h got.1))

  -- The comparison record; its digest is taken over `compared_at` as it was given.
  unfoldable pub comparison_of :
      StoredArtifact
      → String
      → String
      → String
      → String
      → Verdict
      → String
      → Value
      → String
      → String
      → Comparison
  unfolding status_value
  comparison_of candidate behavior source lineage revision v signature refs compared_at stored_at =
      let id =
        short_id h "comparison-"
          (candidate.artifact_id ∷ printed v.baseline_artifact_id ∷ compared_at ∷ []) in
      record {
        comparison_id = id;
        candidate_artifact_id = candidate.artifact_id;
        baseline_artifact_id = v.baseline_artifact_id;
        behavior_id = behavior;
        source_symbol_id = source;
        symbol_lineage_id = lineage;
        artifact_revision_id = revision;
        status = v.status;
        candidate_signature_digest = signature;
        baseline_signature_digest = v.baseline_signature;
        classification_candidate = v.classification;
        evidence_refs = refs;
        compared_at = stored_at;
        content_digest = h.canonical_digest (
            object (
              dict (
                ("comparison_id", text id)
                ∷ ("candidate_artifact_id", text candidate.artifact_id)
                ∷ ("baseline_artifact_id", opt_text v.baseline_artifact_id)
                ∷ ("behavior_id", text behavior)
                ∷ ("source_symbol_id", text source)
                ∷ ("symbol_lineage_id", text lineage)
                ∷ ("artifact_revision_id", text revision)
                ∷ ("status", text (status_value v.status))
                ∷ ("candidate_signature_digest", text signature)
                ∷ ("baseline_signature_digest", opt_text v.baseline_signature)
                ∷ ("classification_candidate", opt_text v.classification)
                ∷ ("evidence_refs", refs)
                ∷ ("compared_at", text compared_at)
                ∷ [])));
      }

  unfoldable pub comparison_session : Comparison → String → Exec (Unit {0})
  comparison_session c actor_ref = do
    insert_or_ignore_comparison c
    append_event h baseline_compared c.candidate_artifact_id actor_ref c.compared_at
        c.content_digest
    pure tt

  -- The `SELECT` of the effective baselines compares with `compared_at` as it was given.
  unfoldable pub select_baseline : String → String → Exec (Option Baseline)
  select_baseline behavior compared_at db =
      pure (effective_baseline behavior compared_at db.baselines) db

  unfoldable pub compare_to_baseline : String → String → String → Exec Comparison
  compare_to_baseline candidate_artifact_id compared_at actor_ref = do
    got ← get_artifact h candidate_artifact_id
    behavior ← or_raise not_a_candidate (bound_behavior got.0)
    baseline ← select_baseline behavior compared_at
    let signature = scenario_signature h got.1
    v ← verdict signature baseline
    source ← or_raise validation_error got.0.source_symbol_id
    lineage ← or_raise validation_error got.0.symbol_lineage_id
    revision ← or_raise validation_error got.0.artifact_revision_id
    stored_at ← or_raise validation_error (h.canonical_timestamp compared_at)
    let c =
        comparison_of got.0 behavior source lineage revision v signature
          (array (items_of (listed (get "evidence_refs" got.1)))) compared_at stored_at
    session (comparison_session c actor_ref)
    pure c
