-- ===== src/TypeSystem/Examples.antt =====
-- A declared type against a catalog's, and a type that could not be parsed.
use atlas_db_agent.Prelude.{
  ℕ, ◌≤◌, false, none, some, [], ◌∷◌, ◌≡◌, ◌↔◌, refl, all, All, Has, if◌then◌else◌,
}
use atlas_db_agent.Prelude.Sorting.{sort}
use atlas_db_agent.TypeSystem.Types.{
  character, unknown_family, declared, catalog_resolved, unknown_status, complete,
  TypeResolutionStatus, SqlType, family_value,
}
use atlas_db_agent.TypeSystem.Resolver.{
  keys_of, type_rank, agrees, differ, value_error, conflict_of, agreement_of, resolve,
}
use atlas_db_agent.TypeSystem.Resolved.{IsUnranked, resolve-value_error, resolve-selected}

abbrev varchar : TypeResolutionStatus → ℕ → SqlType
varchar status n = record {
  family = character;
  database_type = "VARCHAR";
  length = some n;
  precision = none;
  scale = none;
  nullable = none;
  code_page = none;
  for_bit_data = false;
  distinct_type_name = none;
  resolution_status = status;
  completeness = complete;
  source_refs = "S" ∷ [];
}

abbrev from_catalog : SqlType
from_catalog = varchar catalog_resolved 20

abbrev from_source : SqlType
from_source = varchar declared 10

abbrev unparsed : SqlType
unparsed = record from_source { family = unknown_family; resolution_status = unknown_status }

resolve-value_error_example :
    (resolve "P" (from_source ∷ unparsed ∷ []) ≡ value_error)
    ↔ ((v : SqlType) × Has v (from_source ∷ unparsed ∷ []) × IsUnranked v.resolution_status)
resolve-value_error_example = resolve-value_error "P" (from_source ∷ unparsed ∷ [])

resolve-selected_example :
    (t : SqlType) × Has t (from_catalog ∷ from_source ∷ [])
    × All (λ w. type_rank t ≤ type_rank w) (from_catalog ∷ from_source ∷ [])
    × ((if differ from_catalog (from_source ∷ [])
          then conflict_of "P" (from_catalog ∷ from_source ∷ []) t
          else agreement_of "P" (from_catalog ∷ from_source ∷ []) t)
        ≡ conflict_of "P" (from_catalog ∷ from_source ∷ []) from_source)
unfolding resolve keys_of all sort differ agrees family_value
resolve-selected_example =
    resolve-selected "P" from_catalog (from_source ∷ [])
      (conflict_of "P" (from_catalog ∷ from_source ∷ []) from_source) refl
