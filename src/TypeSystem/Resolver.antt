-- ===== src/TypeSystem/Resolver.antt =====
-- `TypeResolutionEngine.resolve` (type_system/resolver.py).
use mathlib.Core.Option.{map as option_map}
use atlas_db_agent.Prelude.{
  ℕ, suc, length, ◌==◌, Bool, true, false, not, ◌&&◌, String, Option, none, some, List, [], ◌∷◌,
  ◌++◌, map, all, str_eq, if◌then◌else◌,
}
use atlas_db_agent.Prelude.Sorting.{sort, first, by_key}
use atlas_db_agent.TypeSystem.Types.{
  unknown_family, family_value, TypeResolutionStatus, declared, catalog_resolved, ddl_resolved,
  authority_override, dialect_inferred, conflicting, unknown_status, status_value, partial,
  unknown_completeness, SqlType, TypeResolution,
}

abbrev pub source_priority : List TypeResolutionStatus
source_priority =
    declared ∷ catalog_resolved ∷ ddl_resolved ∷ authority_override ∷ dialect_inferred ∷ []

-- `tuple.index`: the place of the first equal element; `none` is the ValueError.
unfoldable pub index : TypeResolutionStatus → List TypeResolutionStatus → Option ℕ
index status [] = none
index status (s ∷ ss) =
    let rest = index status ss in
    if str_eq (status_value s) (status_value status) then some 0 else option_map suc rest

-- The key of a value, where it has one.
unfoldable pub rank : TypeResolutionStatus → ℕ
unfolding index status_value
rank status = elim (index status source_priority) [ none ↦ length source_priority | some i ↦ i ]

abbrev pub type_rank : SqlType → ℕ
type_rank v = rank v.resolution_status

-- `sorted` computes the key of each value first, and raises where one raises.
unfoldable pub keys_of : List SqlType → Option (List ℕ)
unfolding index status_value
keys_of [] = some []
keys_of (v ∷ vs) =
    let rest = keys_of vs in
    elim (index v.resolution_status source_priority) [
      | none ↦ none
      | some i ↦ option_map (λ ks. i ∷ ks) rest
    ]

abbrev number_eq : Option ℕ → Option ℕ → Bool
number_eq none none = true
number_eq (some a) (some b) = a == b
number_eq _ _ = false

-- Equal signatures: family, database type, length, precision and scale.
unfoldable pub agrees : SqlType → SqlType → Bool
agrees v w =
    str_eq (family_value w.family) (family_value v.family)
    && str_eq w.database_type v.database_type
    && number_eq w.length v.length
    && number_eq w.precision v.precision
    && number_eq w.scale v.scale

-- The set of the signatures of `v` and the others has more than one element.
unfoldable pub differ : SqlType → List SqlType → Bool
differ v others = not (all (agrees v) others)

-- `tuple(dict.fromkeys(…))`
without : String → List String → List String
without x [] = []
without x (y ∷ ys) = let rest = without x ys in if str_eq y x then rest else y ∷ rest

unfoldable pub from_keys : List String → List String
unfolding without
from_keys [] = []
from_keys (x ∷ xs) = x ∷ without x (from_keys xs)

unfoldable pub all_refs : List SqlType → List String
all_refs [] = []
all_refs (v ∷ vs) = v.source_refs ++ all_refs vs

pub data Resolved : Type 0 where
  resolved : TypeResolution → Resolved
  value_error : Resolved

unfoldable pub unresolved : String → TypeResolution
unresolved subject_ref = record {
  subject_ref = subject_ref;
  resolved_type = record {
    family = unknown_family;
    database_type = "UNKNOWN";
    length = none;
    precision = none;
    scale = none;
    nullable = none;
    code_page = none;
    for_bit_data = false;
    distinct_type_name = none;
    resolution_status = unknown_status;
    completeness = unknown_completeness;
    source_refs = subject_ref ∷ [];
  };
  attempted_sources = [];
  selected_source = none;
  conflicts = [];
  blockers = "COLUMN_TYPE_UNRESOLVED" ∷ [];
}

abbrev sources : List SqlType → List String
sources = map (λ v. status_value v.resolution_status)

unfoldable pub conflict_of : String → List SqlType → SqlType → TypeResolution
unfolding from_keys all_refs
conflict_of subject_ref values selected = record {
  subject_ref = subject_ref;
  resolved_type = record selected {
    resolution_status = conflicting;
    completeness = partial;
    source_refs = from_keys (all_refs values);
  };
  attempted_sources = sources values;
  selected_source = some (status_value selected.resolution_status);
  conflicts = "PARAMETER_COLUMN_TYPE_MISMATCH" ∷ [];
  blockers = "TYPE_RESOLUTION_CONFLICT" ∷ [];
}

unfoldable pub agreement_of : String → List SqlType → SqlType → TypeResolution
agreement_of subject_ref values selected = record {
  subject_ref = subject_ref;
  resolved_type = selected;
  attempted_sources = sources values;
  selected_source = some (status_value selected.resolution_status);
  conflicts = [];
  blockers = [];
}

-- With the first of the ranked values; a list that is not empty has one.
abbrev pub with_selected : String → List SqlType → Bool → Option SqlType → Resolved
with_selected subject_ref values split none = resolved (unresolved subject_ref)
with_selected subject_ref values true (some selected) =
    resolved (conflict_of subject_ref values selected)
with_selected subject_ref values false (some selected) =
    resolved (agreement_of subject_ref values selected)

unfoldable pub resolve : String → List SqlType → Resolved
unfolding differ keys_of rank
resolve subject_ref [] = resolved (unresolved subject_ref)
resolve subject_ref (v ∷ vs) =
    let ranked = sort (by_key type_rank) (v ∷ vs) in
    elim (keys_of (v ∷ vs)) [
      | none ↦ value_error
      | some ks ↦ with_selected subject_ref (v ∷ vs) (differ v vs) (first ranked)
    ]
