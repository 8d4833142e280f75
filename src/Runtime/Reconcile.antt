-- ===== src/Runtime/Reconcile.antt =====
-- The reconciliation of a batch of plans with execution records: runtime/reconcile.py, and
-- `verify_batch` of runtime/verify.py. The digests of the batch and of its report are left out.
use atlas_db_agent.Prelude.{
  ℕ, zero, suc, Bool, true, false, String, Option, none, some, List, [], ◌∷◌, map, str_eq,
  if◌then◌else◌, collect, length,
}
use atlas_db_agent.Prelude.Sorting.{sort}
use atlas_db_agent.Prelude.Texts.{str_le, last_with}
use atlas_db_agent.Values.{Hashes, Fields, object}
use atlas_db_agent.Runtime.Kinds.{Texts}
use atlas_db_agent.Runtime.Verify.{
  VerificationStatus, matched, mismatch, inconclusive, blocked, execution_failed, ExecutionRecord,
  VerificationPlan, Finding, Verification, verify,
}

pub record PlanBatch : Type 0 where
  pub dump : Fields
  pub plans : List VerificationPlan
  pub content_digest : String

-- A plan, its execution and the result of the verification.
pub record Verified : Type 0 where
  pub plan : VerificationPlan
  pub execution : ExecutionRecord
  pub result : Verification

-- `RuntimeFalsificationCandidate`; the verification result that it names is given by its plan and its
-- execution, whose scenario it is.
pub record Candidate : Type 0 where
  pub plan_ref : String
  pub execution_ref : String
  pub findings : List Finding

pub record Report : Type 0 where
  pub counts_by_status : List (String × ℕ)
  pub unmatched_execution_refs : List String
  pub falsification_candidates : List Candidate

-- `plans.get(execution.plan_ref)`
abbrev pub plan_for : String → List VerificationPlan → Option VerificationPlan
plan_for = last_with (λ p. some p.plan_id) (λ p. p)

-- The loop over the execution records: the pairs and the records without a plan.
unfoldable pub pairs_of :
    List VerificationPlan → List ExecutionRecord → List (VerificationPlan × ExecutionRecord)
pairs_of plans [] = []
pairs_of plans (e ∷ es) = elim (plan_for e.plan_ref plans) [
  | none ↦ pairs_of plans es
  | some p ↦ (p, e) ∷ pairs_of plans es
]

unfoldable pub unmatched_of : List VerificationPlan → List ExecutionRecord → List String
unmatched_of plans [] = []
unmatched_of plans (e ∷ es) = elim (plan_for e.plan_ref plans) [
  | none ↦ e.execution_id ∷ unmatched_of plans es
  | some p ↦ unmatched_of plans es
]

abbrev pub verification_value : VerificationStatus → String
verification_value matched = "MATCHED"
verification_value mismatch = "MISMATCH"
verification_value inconclusive = "INCONCLUSIVE"
verification_value blocked = "BLOCKED"
verification_value execution_failed = "EXECUTION_FAILED"

abbrev pub is_mismatch : Verified → Bool
is_mismatch v = elim v.result.verification_status [ mismatch ↦ true | _ ↦ false ]

abbrev pub has_status : String → Verified → Bool
has_status value v = str_eq (verification_value v.result.verification_status) value

-- `dict(sorted(Counter(…).items()))`
unfoldable pub counts_of : List String → List Verified → List (String × ℕ)
counts_of [] vs = []
counts_of (s ∷ ss) vs =
    let rest = counts_of ss vs in
    elim (length (collect (has_status s) (λ v. v) vs)) [ zero ↦ rest | suc n ↦ (s, suc n) ∷ rest ]

abbrev pub status_values : List String
status_values = "BLOCKED" ∷ "EXECUTION_FAILED" ∷ "INCONCLUSIVE" ∷ "MATCHED" ∷ "MISMATCH" ∷ []

abbrev pub candidate_of : Verified → Candidate
candidate_of v = record {
  plan_ref = v.plan.plan_id;
  execution_ref = v.execution.execution_id;
  findings = v.result.findings;
}

module _ (h : Hashes) (t : Texts) where
  unfoldable pub verify_batch : List (VerificationPlan × ExecutionRecord) → List Verified
  unfolding verify
  verify_batch pairs =
      map (λ (p, e). record { plan = p; execution = e; result = verify h t p e }) pairs

  -- `none`: the digest of the batch is invalid.
  unfoldable pub reconcile : PlanBatch → List ExecutionRecord → Option (List Verified × Report)
  unfolding pairs_of unmatched_of counts_of verify_batch
  reconcile batch executions =
      let vs = verify_batch (pairs_of batch.plans executions) in
      if str_eq (h.canonical_digest (object batch.dump)) batch.content_digest
      then some (
        vs,
        record {
          counts_by_status = counts_of status_values vs;
          unmatched_execution_refs = sort str_le (unmatched_of batch.plans executions);
          falsification_candidates = collect is_mismatch candidate_of vs;
        },
      )
      else none
