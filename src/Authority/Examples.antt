-- ===== src/Authority/Examples.antt =====
-- A pair of snapshots with one mapping and one approval.
use atlas_db_agent.Prelude.Sorting.{sort}
use atlas_db_agent.Prelude.{String, collect, contains, ◌↔◌, ◌≡◌, refl, true, none, some, [], ◌∷◌}
use atlas_db_agent.Values.{Hashes, null, done}
use atlas_db_agent.Authority.Snapshots.{
  Clock, AuthorityScope, MappingKind, same_scope, VocabularyMapping, VocabularySnapshot,
  ClassificationApproval, ClassificationSnapshot, valid, invalid, validate,
}
use atlas_db_agent.Authority.Sound.{SoundVocabulary, SoundClassification}
use atlas_db_agent.Authority.Valid.{validate-valid}

abbrev hashes : Hashes
hashes = record {
  canonical_digest = λ v. "digest";
  canonical_json = λ v. "{}";
  loads = λ s. null;
  sha256_hex = λ s. s;
  gherkin_digest = some;
  canonical_timestamp = some;
}

abbrev clock : Clock
clock = record { strip = λ s. s; instant = λ s. 5 }

abbrev mapping : String → VocabularyMapping
mapping approval_ref = record {
  dump = done;
  mapping_id = "M1";
  mapping_kind = MappingKind.exact_approved_mapping;
  normalized_technical_pattern_ref = "P1";
  structural_context_digest = none;
  symbol_binding_refs = [];
  manual_requirement_ref = none;
  approval_ref = approval_ref;
  authority_scope = AuthorityScope.platform;
  valid_from = "2024-01-01T00:00:00.000000Z";
  valid_to = none;
  evidence_refs = "E1" ∷ [];
  content_digest = "digest";
}

abbrev vocabulary : String → VocabularySnapshot
vocabulary approval_ref = record {
  dump = done;
  snapshot_id = "V";
  effective_timestamp = "2024-01-01T00:00:00.000000Z";
  authority_scope = AuthorityScope.platform;
  mappings = mapping approval_ref ∷ [];
  content_digest = "digest";
}

abbrev approval : ClassificationApproval
approval = record {
  dump = done;
  approval_id = "A1";
  classification_observation_ref = "O1";
  approval_ref = "R1";
  authority_scope = AuthorityScope.platform;
  valid_from = "2024-01-01T00:00:00.000000Z";
  valid_to = none;
  evidence_refs = "E1" ∷ [];
  content_digest = "digest";
}

abbrev classification : ClassificationSnapshot
classification = record {
  dump = done;
  snapshot_id = "C";
  effective_timestamp = "2024-01-01T00:00:00.000000Z";
  authority_scope = AuthorityScope.platform;
  approvals = approval ∷ [];
  content_digest = "digest";
}

approved_is_valid :
    (validate hashes clock (vocabulary "R1") classification).validation_status ≡ valid
unfolding validate sort collect contains
approved_is_valid = refl

unapproved_is_invalid :
    (validate hashes clock (vocabulary "") classification).validation_status ≡ invalid
unfolding validate sort collect contains
unapproved_is_invalid = refl

validate-valid_example :
    ((validate hashes clock (vocabulary "R1") classification).validation_status ≡ valid) ↔ (
      (same_scope (vocabulary "R1").authority_scope classification.authority_scope ≡ true)
      × SoundVocabulary hashes clock (vocabulary "R1")
      × SoundClassification hashes clock classification)
validate-valid_example = validate-valid hashes clock (vocabulary "R1") classification
