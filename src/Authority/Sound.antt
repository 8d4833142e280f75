-- ===== src/Authority/Sound.antt =====
-- When a snapshot raises no issue.
use atlas_db_agent.Prelude.{
  ◌≡◌, refl, ◌↔◌, Bool, true, false, not, ◌&&◌, ◌||◌, String, List, [], ◌∷◌, ◌++◌, All, map,
  nonempty, str_eq, arith,
}
use atlas_db_agent.Values.{Hashes}
use atlas_db_agent.Authority.Snapshots.{
  Clock, AuthorityScope, same_scope, VocabularyMapping, VocabularySnapshot, ClassificationApproval,
  ClassificationSnapshot, Issue, issue_if, repeated, issues_for, is_candidate_only,
  timestamp_active, digest_valid, binding_keys, mapping_issues, all_issues, validate_vocabulary,
  approval_issues, validate_classification,
}
use atlas_db_agent.Authority.Repeats.{Once, none-repeated}

pub nonempty-append :
    {A : Type 0} (xs ys : List A) → nonempty (xs ++ ys) ≡ (nonempty xs || nonempty ys)
nonempty-append [] ys = refl
nonempty-append (x ∷ xs) ys = refl

pub nonempty-issue_if : (b : Bool) (code ref : String) → nonempty (issue_if b code ref) ≡ b
nonempty-issue_if true code ref = refl
nonempty-issue_if false code ref = refl

nonempty-issues_for :
    (code : String) (refs : List String) → nonempty (issues_for code refs) ≡ nonempty refs
nonempty-issues_for code [] = refl
nonempty-issues_for code (r ∷ refs) = refl

none-all_issues :
    {A : Type 0} (f : A → List Issue) (P : A → Type 0)
    (none_is : (x : A) → (nonempty (f x) ≡ false) ↔ P x) (xs : List A)
    → (nonempty (all_issues f xs) ≡ false) ↔ All P xs
unfolding all_issues
none-all_issues f P none_is [] = (λ e. tt, λ a. refl)
none-all_issues f P none_is (x ∷ xs) =
    let (to, from) = none-all_issues f P none_is xs in
    let (first_to, first_from) = none_is x in
    let split = nonempty-append (f x) (all_issues f xs) in
    (
      λ e. (first_to (ground (arith, e, split)), to (ground (arith, e, split))),
      λ (first, rest).
          let later = from rest in let e = first_from first in ground (arith, split, e, later),
    )

module _ (h : Hashes) (k : Clock) where
  -- What a mapping must be for no issue to be raised on it.
  pub record SoundMapping (s : VocabularySnapshot) (m : VocabularyMapping) : Type 0 where
    pub scope : same_scope m.authority_scope s.authority_scope ≡ true
    pub digest : digest_valid h k m.dump m.content_digest ≡ true
    pub approved : str_eq (k.strip m.approval_ref) "" ≡ false
    pub evidenced : nonempty m.evidence_refs ≡ true
    pub promotable :
        (same_scope s.authority_scope AuthorityScope.platform && is_candidate_only m) ≡ false
    pub active : timestamp_active h k s.effective_timestamp m.valid_from m.valid_to ≡ true

  pub record SoundApproval (s : ClassificationSnapshot) (a : ClassificationApproval) : Type 0 where
    pub scope : same_scope a.authority_scope s.authority_scope ≡ true
    pub digest : digest_valid h k a.dump a.content_digest ≡ true
    pub approved : str_eq (k.strip a.approval_ref) "" ≡ false
    pub evidenced : nonempty a.evidence_refs ≡ true
    pub active : timestamp_active h k s.effective_timestamp a.valid_from a.valid_to ≡ true

  none-mapping_issues :
      (s : VocabularySnapshot) (m : VocabularyMapping)
      → nonempty (mapping_issues h k s m) ≡ (
          not (same_scope m.authority_scope s.authority_scope)
          || not (digest_valid h k m.dump m.content_digest)
          || str_eq (k.strip m.approval_ref) ""
          || not (nonempty m.evidence_refs)
          || (same_scope s.authority_scope AuthorityScope.platform && is_candidate_only m)
          || not (timestamp_active h k s.effective_timestamp m.valid_from m.valid_to))
  unfolding mapping_issues
  none-mapping_issues s m = simp (nonempty-append, nonempty-issue_if) refl

  none-approval_issues :
      (s : ClassificationSnapshot) (a : ClassificationApproval)
      → nonempty (approval_issues h k s a) ≡ (
          not (same_scope a.authority_scope s.authority_scope)
          || not (digest_valid h k a.dump a.content_digest)
          || str_eq (k.strip a.approval_ref) ""
          || not (nonempty a.evidence_refs)
          || not (timestamp_active h k s.effective_timestamp a.valid_from a.valid_to))
  unfolding approval_issues
  none-approval_issues s a = simp (nonempty-append, nonempty-issue_if) refl

  none-mapping :
      (s : VocabularySnapshot) (m : VocabularyMapping)
      → (nonempty (mapping_issues h k s m) ≡ false) ↔ SoundMapping s m
  none-mapping s m =
      let cases = none-mapping_issues s m in
      (
        λ e. record {
          scope = ground (arith, cases, e);
          digest = ground (arith, cases, e);
          approved = ground (arith, cases, e);
          evidenced = ground (arith, cases, e);
          promotable = ground (arith, cases, e);
          active = ground (arith, cases, e);
        },
        λ r.
            ground
              (arith, cases, r.scope, r.digest, r.approved, r.evidenced, r.promotable, r.active),
      )

  none-approval :
      (s : ClassificationSnapshot) (a : ClassificationApproval)
      → (nonempty (approval_issues h k s a) ≡ false) ↔ SoundApproval s a
  none-approval s a =
      let cases = none-approval_issues s a in
      (
        λ e. record {
          scope = ground (arith, cases, e);
          digest = ground (arith, cases, e);
          approved = ground (arith, cases, e);
          evidenced = ground (arith, cases, e);
          active = ground (arith, cases, e);
        },
        λ r. ground (arith, cases, r.scope, r.digest, r.approved, r.evidenced, r.active),
      )

  none-validate_vocabulary :
      (s : VocabularySnapshot)
      → nonempty (validate_vocabulary h k s) ≡ (
          not (digest_valid h k s.dump s.content_digest)
          || nonempty (all_issues (mapping_issues h k s) s.mappings)
          || nonempty (repeated (map (λ (m : VocabularyMapping). m.mapping_id) s.mappings))
          || nonempty (repeated (binding_keys h k s.mappings)))
  unfolding validate_vocabulary
  none-validate_vocabulary s = simp (nonempty-append, nonempty-issue_if, nonempty-issues_for) refl

  none-validate_classification :
      (s : ClassificationSnapshot)
      → nonempty (validate_classification h k s) ≡ (
          not (digest_valid h k s.dump s.content_digest)
          || nonempty (all_issues (approval_issues h k s) s.approvals)
          || nonempty (repeated (map (λ (a : ClassificationApproval). a.approval_id) s.approvals))
          || nonempty (
              repeated (
                map
                  (λ (a : ClassificationApproval). a.classification_observation_ref)
                  s.approvals)))
  unfolding validate_classification
  none-validate_classification s =
      simp (nonempty-append, nonempty-issue_if, nonempty-issues_for) refl

  none-mappings :
      (s : VocabularySnapshot) (ms : List VocabularyMapping)
      → (nonempty (all_issues (mapping_issues h k s) ms) ≡ false) ↔ All (SoundMapping s) ms
  none-mappings s ms = none-all_issues (mapping_issues h k s) (SoundMapping s) (none-mapping s) ms

  none-approvals :
      (s : ClassificationSnapshot) (xs : List ClassificationApproval)
      → (nonempty (all_issues (approval_issues h k s) xs) ≡ false) ↔ All (SoundApproval s) xs
  none-approvals s xs =
      none-all_issues (approval_issues h k s) (SoundApproval s) (none-approval s) xs

  -- What a snapshot must be, written without the issues.
  pub record SoundVocabulary (v : VocabularySnapshot) : Type 0 where
    pub digest : digest_valid h k v.dump v.content_digest ≡ true
    pub mappings : All (SoundMapping v) v.mappings
    pub mapping_ids : Once (map (λ (m : VocabularyMapping). m.mapping_id) v.mappings)
    pub bindings : Once (binding_keys h k v.mappings)

  pub record SoundClassification (c : ClassificationSnapshot) : Type 0 where
    pub digest : digest_valid h k c.dump c.content_digest ≡ true
    pub approvals : All (SoundApproval c) c.approvals
    pub approval_ids : Once (map (λ (a : ClassificationApproval). a.approval_id) c.approvals)
    pub observations :
        Once (map (λ (a : ClassificationApproval). a.classification_observation_ref) c.approvals)

  pub none-vocabulary :
      (v : VocabularySnapshot) → (nonempty (validate_vocabulary h k v) ≡ false) ↔ SoundVocabulary v
  none-vocabulary v =
      let cases = none-validate_vocabulary v in
      let (maps_to, maps_from) = none-mappings v v.mappings in
      let (ids_to, ids_from) =
        none-repeated (map (λ (m : VocabularyMapping). m.mapping_id) v.mappings) in
      let (bound_to, bound_from) = none-repeated (binding_keys h k v.mappings) in
      (
        λ e. record {
          digest = ground (arith, e, cases);
          mappings = maps_to (ground (arith, e, cases));
          mapping_ids = ids_to (ground (arith, e, cases));
          bindings = bound_to (ground (arith, e, cases));
        },
        λ r.
            let a = maps_from r.mappings in
            let b = ids_from r.mapping_ids in
            let c = bound_from r.bindings in ground (arith, cases, r.digest, a, b, c),
      )

  pub none-classification :
      (c : ClassificationSnapshot)
      → (nonempty (validate_classification h k c) ≡ false) ↔ SoundClassification c
  none-classification c =
      let cases = none-validate_classification c in
      let (approvals_to, approvals_from) = none-approvals c c.approvals in
      let (ids_to, ids_from) =
        none-repeated (map (λ (a : ClassificationApproval). a.approval_id) c.approvals) in
      let (seen_to, seen_from) =
        none-repeated
          (map (λ (a : ClassificationApproval). a.classification_observation_ref) c.approvals) in
      (
        λ e. record {
          digest = ground (arith, e, cases);
          approvals = approvals_to (ground (arith, e, cases));
          approval_ids = ids_to (ground (arith, e, cases));
          observations = seen_to (ground (arith, e, cases));
        },
        λ r.
            let a = approvals_from r.approvals in
            let b = ids_from r.approval_ids in
            let d = seen_from r.observations in ground (arith, cases, r.digest, a, b, d),
      )
