-- ===== src/Analysis/Merged.antt =====
-- The join of statuses as a merge of one status after the other.
use atlas_db_agent.Prelude.{
  ◌≡◌, refl, Bool, true, false, not, ◌&&◌, List, [], ◌∷◌, arith, collect, nonempty, all,
  if◌then◌else◌,
}
use atlas_db_agent.Analysis.Nullability.{NullabilityStatus, is_concrete, is_non_null, is_null, join}

-- Two statuses: UNKNOWN says nothing, equal ones agree, and any others leave both possible.
abbrev pub merge : NullabilityStatus → NullabilityStatus → NullabilityStatus
merge NullabilityStatus.unknown_nullability t = t
merge s NullabilityStatus.unknown_nullability = s
merge NullabilityStatus.definitely_non_null NullabilityStatus.definitely_non_null =
    NullabilityStatus.definitely_non_null
merge NullabilityStatus.definitely_null NullabilityStatus.definitely_null =
    NullabilityStatus.definitely_null
merge _ _ = NullabilityStatus.possibly_null

abbrev pub merge_all : List NullabilityStatus → NullabilityStatus
merge_all [] = NullabilityStatus.unknown_nullability
merge_all (s ∷ ss) = merge s (merge_all ss)

-- `join` by what it tests.
abbrev by_tests : Bool → Bool → Bool → NullabilityStatus
by_tests some_concrete all_non_null all_null =
    if not some_concrete
    then NullabilityStatus.unknown_nullability
    else if all_non_null
    then NullabilityStatus.definitely_non_null
    else if all_null
    then NullabilityStatus.definitely_null
    else NullabilityStatus.possibly_null

abbrev concrete_of : List NullabilityStatus → List NullabilityStatus
concrete_of ss = collect is_concrete (λ s. s) ss

merge-non_null :
    (n a b : Bool)
    → (n ≡ false → (a && b) ≡ true)
    → (n ≡ true → (a && b) ≡ false)
    → by_tests true a false ≡ merge NullabilityStatus.definitely_non_null (by_tests n a b)
merge-non_null false true true e d = refl
merge-non_null false true false e d = absurd (ground (arith, e refl))
merge-non_null false false b e d = absurd (ground (arith, e refl))
merge-non_null true true b e d = refl
merge-non_null true false true e d = refl
merge-non_null true false false e d = refl

merge-null :
    (n a b : Bool)
    → (n ≡ false → (a && b) ≡ true)
    → (n ≡ true → (a && b) ≡ false)
    → by_tests true false b ≡ merge NullabilityStatus.definitely_null (by_tests n a b)
merge-null false true true e d = refl
merge-null false true false e d = absurd (ground (arith, e refl))
merge-null false false b e d = absurd (ground (arith, e refl))
merge-null true true true e d = absurd (ground (arith, d refl))
merge-null true true false e d = refl
merge-null true false true e d = refl
merge-null true false false e d = refl

merge-possibly :
    (n a b : Bool)
    → by_tests true false false ≡ merge NullabilityStatus.possibly_null (by_tests n a b)
merge-possibly false a b = refl
merge-possibly true true b = refl
merge-possibly true false true = refl
merge-possibly true false false = refl

all-empty :
    (cs : List NullabilityStatus)
    → nonempty cs ≡ false
    → (all is_non_null cs && all is_null cs) ≡ true
unfolding all
all-empty [] e = refl
all-empty (c ∷ cs) e = absurd (ground (arith, e))

all-differ :
    (cs : List NullabilityStatus)
    → nonempty cs ≡ true
    → (all is_non_null cs && all is_null cs) ≡ false
unfolding all
all-differ [] e = absurd (ground (arith, e))
all-differ (NullabilityStatus.definitely_non_null ∷ cs) e = ground arith
all-differ (NullabilityStatus.definitely_null ∷ cs) e = ground arith
all-differ (NullabilityStatus.possibly_null ∷ cs) e = ground arith
all-differ (NullabilityStatus.unknown_nullability ∷ cs) e = ground arith

by_tests-merge_all :
    (ss : List NullabilityStatus)
    → by_tests
        (nonempty (concrete_of ss))
        (all is_non_null (concrete_of ss))
        (all is_null (concrete_of ss))
      ≡ merge_all ss
unfolding all collect
by_tests-merge_all [] = refl
by_tests-merge_all (NullabilityStatus.unknown_nullability ∷ ss) = by_tests-merge_all ss
by_tests-merge_all (NullabilityStatus.definitely_non_null ∷ ss) =
    let cs = concrete_of ss in
    rw (by_tests-merge_all ss) at (
      merge-non_null (nonempty cs) (all is_non_null cs) (all is_null cs) (all-empty cs)
        (all-differ cs))
by_tests-merge_all (NullabilityStatus.definitely_null ∷ ss) =
    let cs = concrete_of ss in
    rw (by_tests-merge_all ss) at (
      merge-null (nonempty cs) (all is_non_null cs) (all is_null cs) (all-empty cs) (all-differ cs))
by_tests-merge_all (NullabilityStatus.possibly_null ∷ ss) =
    let cs = concrete_of ss in
    rw (by_tests-merge_all ss) at
      (merge-possibly (nonempty cs) (all is_non_null cs) (all is_null cs))

-- The join of the statuses is the merge of one after the other, where UNKNOWN says nothing, equal
-- statuses agree, and any two others are possibly null.
pub join-merge_all : (ss : List NullabilityStatus) → join ss ≡ merge_all ss
unfolding join
join-merge_all ss = by_tests-merge_all ss
