-- ===== src/Authority/Valid.antt =====
-- When `validate` reports a pair of snapshots valid.
use atlas_db_agent.Prelude.{
  ◌≡◌, refl, sym, ◌∙◌, ◌↔◌, Bool, true, false, not, ◌||◌, [], ◌∷◌, ◌++◌, nonempty, arith,
  if◌then◌else◌,
}
use atlas_db_agent.Prelude.Sorting.{nonempty-sort}
use atlas_db_agent.Prelude.Texts.{join_by}
use atlas_db_agent.Values.{Hashes}
use atlas_db_agent.Authority.Snapshots.{
  Clock, same_scope, VocabularySnapshot, ClassificationSnapshot, valid, invalid, issue_if, issue_le,
  validate_vocabulary, validate_classification, validate,
}
use atlas_db_agent.Authority.Sound.{
  nonempty-append, nonempty-issue_if, SoundVocabulary, SoundClassification, none-vocabulary,
  none-classification,
}

valid_if : (b : Bool) → ((if b then invalid else valid) ≡ valid) ↔ (b ≡ false)
valid_if true = (λ e. absurd (ground (arith, e)), λ e. absurd (ground (arith, e)))
valid_if false = (λ e. refl, λ e. refl)

module _ (h : Hashes) (k : Clock) where
  validate-status :
      (v : VocabularySnapshot) (c : ClassificationSnapshot)
      → (validate h k v c).validation_status ≡ (
          if nonempty (validate_vocabulary h k v)
            || nonempty (validate_classification h k c)
            || not (same_scope v.authority_scope c.authority_scope)
          then invalid
          else valid)
  unfolding validate
  validate-status v c =
      let found =
        validate_vocabulary h k v
        ++ validate_classification h k c
        ++ issue_if (not (same_scope v.authority_scope c.authority_scope))
            "AUTHORITY_SCOPE_MISMATCH" (join_by "|" (v.snapshot_id ∷ c.snapshot_id ∷ [])) in
      rw (nonempty-sort issue_le found) (simp (nonempty-append, nonempty-issue_if) refl)

  -- A pair of snapshots is reported valid exactly when the scopes agree, both snapshots carry their own
  -- digest, every mapping and every approval has its snapshot's scope, its own digest, an approval
  -- reference, evidence, and is in force at the snapshot's instant, no candidate-only mapping stands in a
  -- platform snapshot, and no mapping id, no binding of a mapping that is not candidate-only, no approval id
  -- and no observation occurs twice.
  pub validate-valid :
      (v : VocabularySnapshot) (c : ClassificationSnapshot)
      → ((validate h k v c).validation_status ≡ valid) ↔ (
          (same_scope v.authority_scope c.authority_scope ≡ true)
          × SoundVocabulary h k v
          × SoundClassification h k c)
  validate-valid v c =
      let status = validate-status v c in
      let (v_to, v_from) = none-vocabulary h k v in
      let (c_to, c_from) = none-classification h k c in
      let (clear_to, clear_from) = valid_if (
        nonempty (validate_vocabulary h k v)
        || nonempty (validate_classification h k c)
        || not (same_scope v.authority_scope c.authority_scope)) in
      (
        λ e.
            let clear = clear_to (sym status ∙ e) in
            (ground (arith, clear), v_to (ground (arith, clear)), c_to (ground (arith, clear))),
        λ (same, sound_v, sound_c).
            let a = v_from sound_v in
            let b = c_from sound_c in status ∙ clear_from (ground (arith, same, a, b)),
      )
