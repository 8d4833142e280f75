-- ===== src/Authority/Snapshots.antt =====
-- `AuthoritySnapshotValidator` of bdd/authority.py, with the models of bdd/models.py. An issue is its
-- code and the artifact; its message is left out. An instant is what `datetime` reads
-- of a text, which the models have checked to be a timestamp.
use atlas_db_agent.Prelude.{
  ℕ, suc, Bool, true, false, not, ◌&&◌, String, Option, none, some, List, [], ◌∷◌, ◌++◌, map,
  str_eq, if◌then◌else◌, collect, nonempty, ltb, leb,
}
use atlas_db_agent.Prelude.Sorting.{sort}
use atlas_db_agent.Prelude.Texts.{str_le, join_by, distinct}
use atlas_db_agent.Values.{Hashes, Fields, object, text, texts, dict, opt_text}

pub record Clock : Type 0 where
  pub strip : String → String
  pub instant : String → ℕ

pub data AuthorityScope : Type 0 where
  test_fixture_only platform : AuthorityScope

abbrev pub same_scope : AuthorityScope → AuthorityScope → Bool
same_scope AuthorityScope.test_fixture_only AuthorityScope.test_fixture_only = true
same_scope AuthorityScope.platform AuthorityScope.platform = true
same_scope _ _ = false

pub data MappingKind : Type 0 where
  exact_approved_mapping structural_approved_mapping symbol_bound_approved_mapping
        manually_approved_mapping mapping_candidate_only :
      MappingKind

abbrev pub mapping_kind_value : MappingKind → String
mapping_kind_value MappingKind.exact_approved_mapping = "EXACT_APPROVED_MAPPING"
mapping_kind_value MappingKind.structural_approved_mapping = "STRUCTURAL_APPROVED_MAPPING"
mapping_kind_value MappingKind.symbol_bound_approved_mapping = "SYMBOL_BOUND_APPROVED_MAPPING"
mapping_kind_value MappingKind.manually_approved_mapping = "MANUALLY_APPROVED_MAPPING"
mapping_kind_value MappingKind.mapping_candidate_only = "MAPPING_CANDIDATE_ONLY"

pub record VocabularyMapping : Type 0 where
  pub dump : Fields
  pub mapping_id : String
  pub mapping_kind : MappingKind
  pub normalized_technical_pattern_ref : String
  pub structural_context_digest : Option String
  pub symbol_binding_refs : List String
  pub manual_requirement_ref : Option String
  pub approval_ref : String
  pub authority_scope : AuthorityScope
  pub valid_from : String
  pub valid_to : Option String
  pub evidence_refs : List String
  pub content_digest : String

pub record VocabularySnapshot : Type 0 where
  pub dump : Fields
  pub snapshot_id : String
  pub effective_timestamp : String
  pub authority_scope : AuthorityScope
  pub mappings : List VocabularyMapping
  pub content_digest : String

pub record ClassificationApproval : Type 0 where
  pub dump : Fields
  pub approval_id : String
  pub classification_observation_ref : String
  pub approval_ref : String
  pub authority_scope : AuthorityScope
  pub valid_from : String
  pub valid_to : Option String
  pub evidence_refs : List String
  pub content_digest : String

pub record ClassificationSnapshot : Type 0 where
  pub dump : Fields
  pub snapshot_id : String
  pub effective_timestamp : String
  pub authority_scope : AuthorityScope
  pub approvals : List ClassificationApproval
  pub content_digest : String

-- The code is held as its text.
pub record Issue : Type 0 where
  pub code : String
  pub artifact_ref : String

pub data AuthorityValidationStatus : Type 0 where
  valid invalid : AuthorityValidationStatus

-- The result's schema version and its own digest are left out.
pub record Validation : Type 0 where
  pub validation_status : AuthorityValidationStatus
  pub vocabulary_snapshot_ref : String
  pub vocabulary_snapshot_digest : String
  pub classification_snapshot_ref : String
  pub classification_snapshot_digest : String
  pub authority_scope : Option AuthorityScope
  pub issues : List Issue

-- `if test: issues.append(self._issue(code, ref, …))`
abbrev pub issue_if : Bool → String → String → List Issue
issue_if true code ref = record { code = code; artifact_ref = ref } ∷ []
issue_if false code ref = []

-- `Counter(xs)`: how often a text occurs, and the texts that occur more than once.
unfoldable pub count_in : String → List String → ℕ
count_in x [] = 0
count_in x (y ∷ ys) = if str_eq y x then suc (count_in x ys) else count_in x ys

unfoldable pub repeated : List String → List String
unfolding count_in distinct
repeated xs = collect (λ x. ltb 1 (count_in x xs)) (λ x. x) (distinct [] xs)

abbrev pub issues_for : String → List String → List Issue
issues_for code refs = map (λ ref. record { code = code; artifact_ref = ref }) refs

abbrev pub issue_le : Issue → Issue → Bool
issue_le a b =
    if str_eq a.code b.code then str_le a.artifact_ref b.artifact_ref else str_le a.code b.code

abbrev pub is_candidate_only : VocabularyMapping → Bool
is_candidate_only m = elim m.mapping_kind [ MappingKind.mapping_candidate_only ↦ true | _ ↦ false ]

unfoldable pub all_issues : {A : Type 0} → (A → List Issue) → List A → List Issue
all_issues f [] = []
all_issues f (x ∷ xs) = f x ++ all_issues f xs

module _ (h : Hashes) (k : Clock) where
  -- `timestamp_active`
  abbrev pub timestamp_active : String → String → Option String → Bool
  timestamp_active at from none = leb (k.instant from) (k.instant at)
  timestamp_active at from (some to) =
      leb (k.instant from) (k.instant at) && ltb (k.instant at) (k.instant to)

  -- `_digest_valid`
  abbrev pub digest_valid : Fields → String → Bool
  digest_valid dump digest = str_eq (h.canonical_digest (object dump)) digest

  -- `_mapping_binding_key`
  abbrev pub mapping_binding_key : VocabularyMapping → String
  mapping_binding_key m = h.canonical_digest (
      object (
        dict (
          ("kind", text (mapping_kind_value m.mapping_kind))
          ∷ ("pattern", text m.normalized_technical_pattern_ref)
          ∷ ("structural", opt_text m.structural_context_digest)
          ∷ ("symbols", texts m.symbol_binding_refs)
          ∷ ("manual", opt_text m.manual_requirement_ref)
          ∷ [])))

  -- The issues of one mapping of a snapshot.
  unfoldable pub mapping_issues : VocabularySnapshot → VocabularyMapping → List Issue
  mapping_issues s m =
      issue_if (not (same_scope m.authority_scope s.authority_scope)) "AUTHORITY_SCOPE_MISMATCH"
        m.mapping_id
      ++ issue_if (not (digest_valid m.dump m.content_digest)) "MAPPING_DIGEST_INVALID" m.mapping_id
      ++ issue_if (str_eq (k.strip m.approval_ref) "") "EMPTY_APPROVAL_REFERENCE" m.mapping_id
      ++ issue_if (not (nonempty m.evidence_refs)) "EMPTY_MAPPING_EVIDENCE" m.mapping_id
      ++ issue_if (same_scope s.authority_scope AuthorityScope.platform && is_candidate_only m)
          "NON_PROMOTABLE_PLATFORM_MAPPING" m.mapping_id
      ++ issue_if (not (timestamp_active s.effective_timestamp m.valid_from m.valid_to))
          "MAPPING_NOT_EFFECTIVE_AT_SNAPSHOT" m.mapping_id

  abbrev pub binding_keys : List VocabularyMapping → List String
  binding_keys ms = collect (λ m. not (is_candidate_only m)) mapping_binding_key ms

  -- `_validate_vocabulary`
  unfoldable pub validate_vocabulary : VocabularySnapshot → List Issue
  unfolding mapping_issues all_issues repeated
  validate_vocabulary s =
      issue_if (not (digest_valid s.dump s.content_digest)) "VOCABULARY_SNAPSHOT_DIGEST_INVALID"
        s.snapshot_id
      ++ all_issues (mapping_issues s) s.mappings
      ++ issues_for "DUPLICATE_MAPPING_ID"
          (repeated (map (λ (m : VocabularyMapping). m.mapping_id) s.mappings))
      ++ issues_for "DUPLICATE_ACTIVE_MAPPING_BINDING" (repeated (binding_keys s.mappings))

  unfoldable pub approval_issues : ClassificationSnapshot → ClassificationApproval → List Issue
  approval_issues s a =
      issue_if (not (same_scope a.authority_scope s.authority_scope)) "AUTHORITY_SCOPE_MISMATCH"
        a.approval_id
      ++ issue_if (not (digest_valid a.dump a.content_digest))
          "CLASSIFICATION_APPROVAL_DIGEST_INVALID" a.approval_id
      ++ issue_if (str_eq (k.strip a.approval_ref) "") "EMPTY_APPROVAL_REFERENCE" a.approval_id
      ++ issue_if (not (nonempty a.evidence_refs)) "EMPTY_CLASSIFICATION_EVIDENCE" a.approval_id
      ++ issue_if (not (timestamp_active s.effective_timestamp a.valid_from a.valid_to))
          "APPROVAL_NOT_EFFECTIVE_AT_SNAPSHOT" a.approval_id

  -- `_validate_classification`
  unfoldable pub validate_classification : ClassificationSnapshot → List Issue
  unfolding approval_issues all_issues repeated
  validate_classification s =
      issue_if (not (digest_valid s.dump s.content_digest)) "CLASSIFICATION_SNAPSHOT_DIGEST_INVALID"
        s.snapshot_id
      ++ all_issues (approval_issues s) s.approvals
      ++ issues_for "DUPLICATE_APPROVAL_ID"
          (repeated (map (λ (a : ClassificationApproval). a.approval_id) s.approvals))
      ++ issues_for "DUPLICATE_CLASSIFICATION_APPROVAL" (
          repeated
            (map (λ (a : ClassificationApproval). a.classification_observation_ref) s.approvals))

  unfoldable pub validate : VocabularySnapshot → ClassificationSnapshot → Validation
  unfolding validate_vocabulary validate_classification
  validate v c =
      let same = same_scope v.authority_scope c.authority_scope in
      let issues = sort issue_le (
        validate_vocabulary v
        ++ validate_classification c
        ++ issue_if (not same) "AUTHORITY_SCOPE_MISMATCH"
            (join_by "|" (v.snapshot_id ∷ c.snapshot_id ∷ []))) in
      record {
        validation_status = if nonempty issues then invalid else valid;
        vocabulary_snapshot_ref = v.snapshot_id;
        vocabulary_snapshot_digest = v.content_digest;
        classification_snapshot_ref = c.snapshot_id;
        classification_snapshot_digest = c.content_digest;
        authority_scope = if same then some v.authority_scope else none;
        issues = issues;
      }
