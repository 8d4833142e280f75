-- ===== src/TypeSystem/Resolved.antt =====
-- Which type is resolved, and when it is blocked.
use atlas_db_agent.Prelude.{
  ◌≤◌, Bool, true, false, String, Option, none, some, List, [], ◌∷◌, ◌≡◌, ◌↔◌, ◌⊎◌, refl, sym,
  subst, ◌∙◌, arith, All, Has, Option-cases, inl, inr, if◌then◌else◌,
}
use atlas_db_agent.Prelude.Sorting.{
  sort, first, by_key, first-sort-least, first-sort-Has, none-first, nonempty-sort,
}
use atlas_db_agent.TypeSystem.Types.{
  SqlType, TypeResolution, TypeResolutionStatus, declared, catalog_resolved, ddl_resolved,
  authority_override, dialect_inferred, conflicting, unknown_status, status_value,
}
use atlas_db_agent.TypeSystem.Resolver.{
  source_priority, index, keys_of, type_rank, differ, resolved, value_error, conflict_of,
  agreement_of, with_selected, resolve,
}

-- The two statuses that the resolution gives itself.
abbrev pub IsUnranked : TypeResolutionStatus → Type 0
IsUnranked s = (s ≡ conflicting) ⊎ (s ≡ unknown_status)

-- A status has a place in the tuple unless it is one of these two.
index-IsUnranked : (s : TypeResolutionStatus) → (index s source_priority ≡ none) ↔ IsUnranked s
unfolding index status_value
index-IsUnranked conflicting = (λ e. inl refl, λ u. refl)
index-IsUnranked unknown_status = (λ e. inr refl, λ u. refl)
index-IsUnranked declared = ground arith
index-IsUnranked catalog_resolved = ground arith
index-IsUnranked ddl_resolved = ground arith
index-IsUnranked authority_override = ground arith
index-IsUnranked dialect_inferred = ground arith

keys_of-IsUnranked :
    (vs : List SqlType)
    → (keys_of vs ≡ none) ↔ ((v : SqlType) × Has v vs × IsUnranked v.resolution_status)
unfolding keys_of
keys_of-IsUnranked [] = (λ e. absurd (ground (arith, e)), λ (v, h, u). absurd h)
keys_of-IsUnranked (v ∷ vs) =
    let (to, from) = keys_of-IsUnranked vs in
    let (out, back) = index-IsUnranked v.resolution_status in
    elim (Option-cases (index v.resolution_status source_priority)) [
      | inl n ↦ rw (n, keys_of) (λ e. (v, inl refl, out n), λ x. refl)
      | inr (i, q) ↦ elim (Option-cases (keys_of vs)) [
        | inl n ↦ rw (q, n, keys_of) (λ e. let (w, h, u) = to n in (w, inr h, u), λ x. refl)
        | inr (ks, k) ↦
            rw (q, k, keys_of)
              (
                λ e. absurd (ground (arith, e)),
                λ (w, h, u). elim h [
                  | inl e ↦
                      let raises =
                        back (subst (λ (x : SqlType). IsUnranked x.resolution_status) (sym e) u) in
                      absurd (ground (arith, q, raises))
                  | inr m ↦ let raises = from (w, m, u) in absurd (ground (arith, k, raises))
                ],
              )
      ]
    ]

with_selected-resolved :
    (subject_ref : String) (vs : List SqlType) (split : Bool) (found : Option SqlType)
    → (r : TypeResolution) × (with_selected subject_ref vs split found ≡ resolved r)
with_selected-resolved subject_ref vs split none = (_, refl)
with_selected-resolved subject_ref vs false (some t) = (_, refl)
with_selected-resolved subject_ref vs true (some t) = (_, refl)

-- `resolve` raises exactly when some candidate's status is CONFLICT or UNKNOWN.
pub resolve-value_error :
    (subject_ref : String) (vs : List SqlType)
    → (resolve subject_ref vs ≡ value_error)
      ↔ ((v : SqlType) × Has v vs × IsUnranked v.resolution_status)
unfolding resolve
resolve-value_error subject_ref [] = (λ e. absurd (ground (arith, e)), λ (v, h, u). absurd h)
resolve-value_error subject_ref (v ∷ vs) =
    let (to, from) = keys_of-IsUnranked (v ∷ vs) in
    elim (Option-cases (keys_of (v ∷ vs))) [
      | inl n ↦ rw (n, resolve) (λ e. to n, λ x. refl)
      | inr (ks, k) ↦
          let (r, e) =
            with_selected-resolved subject_ref (v ∷ vs) (differ v vs)
              (first (sort (by_key type_rank) (v ∷ vs))) in
          rw (k, resolve)
            (
              λ raised. absurd (ground (arith, sym e ∙ raised)),
              λ x. let raises = from x in absurd (ground (arith, k, raises)),
            )
    ]

-- What the code returns when it does not raise and the list has a first value.
selected_lem :
    (subject_ref : String) (vs : List SqlType) (split : Bool) (t : SqlType) (r : TypeResolution)
    → with_selected subject_ref vs split (some t) ≡ resolved r
    → (if split then conflict_of subject_ref vs t else agreement_of subject_ref vs t) ≡ r
selected_lem subject_ref vs true t r e = cc e
selected_lem subject_ref vs false t r e = cc e

not_raised :
    (subject_ref : String) (v : SqlType) (vs : List SqlType) (r : TypeResolution)
    → resolve subject_ref (v ∷ vs) ≡ resolved r
    → with_selected subject_ref (v ∷ vs) (differ v vs) (first (sort (by_key type_rank) (v ∷ vs)))
      ≡ resolved r
unfolding resolve
not_raised subject_ref v vs r e = elim (Option-cases (keys_of (v ∷ vs))) [
  | inl n ↦ absurd (ground (arith, rw (n, resolve) at e))
  | inr (ks, k) ↦ rw (k, resolve) at e
]

-- When `resolve` returns for candidates, one of them, of the least rank in `SOURCE_PRIORITY`, is
-- selected; the result is that candidate as it stands when all signatures agree, and else a
-- conflict that keeps its signature.
pub resolve-selected :
    (subject_ref : String) (v : SqlType) (vs : List SqlType) (r : TypeResolution)
    → resolve subject_ref (v ∷ vs) ≡ resolved r
    → (t : SqlType) × Has t (v ∷ vs)
      × All (λ w. type_rank t ≤ type_rank w) (v ∷ vs)
      × ((if differ v vs
            then conflict_of subject_ref (v ∷ vs) t
            else agreement_of subject_ref (v ∷ vs) t)
          ≡ r)
resolve-selected subject_ref v vs r e =
    elim (Option-cases (first (sort (by_key type_rank) (v ∷ vs)))) [
      | inl n ↦ absurd (none-first _ n (nonempty-sort (by_key type_rank) (v ∷ vs)))
      | inr (t, f) ↦ (
        t,
        first-sort-Has type_rank (v ∷ vs) t f,
        first-sort-least type_rank (v ∷ vs) t f,
        selected_lem subject_ref (v ∷ vs) (differ v vs) t r
            (rw f at (not_raised subject_ref v vs r e)),
      )
    ]
