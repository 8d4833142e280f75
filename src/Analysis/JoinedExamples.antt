-- ===== src/Analysis/JoinedExamples.antt =====
-- A counter that starts at zero, and is then selected into by a query that was not bound.
use atlas_db_agent.Prelude.{
  ◌≡◌, refl, ◌↔◌, true, false, some, List, [], ◌∷◌, Has, str_eq, collect, all,
}
use atlas_db_agent.Analysis.Records.{DeclaredSymbol}
use atlas_db_agent.Analysis.Nullability.{
  Patterns, NullabilityStatus, Definition, is_concrete, is_non_null, join, default_status,
  status_of, values_of,
}
use atlas_db_agent.Analysis.Joined.{status_of-non_null}
use atlas_db_agent.Analysis.Merged.{merge_all, join-merge_all}

abbrev patterns : Patterns
patterns = record {
  sha256_hex = λ s. s;
  upper = λ s. s;
  strip = λ s. s;
  squeeze = λ s. s;
  is_literal = λ s. str_eq s "0";
  steps_by = λ s t. false;
  is_count = λ s. false;
  is_aggregate = λ s. false;
  null_tests = λ s. [];
  count_text = λ xs. "1";
}

abbrev counter : DeclaredSymbol
counter = record { symbol_name = "N"; default_expression = some "0"; source_ref = "d" }

abbrev unbound : Definition
unbound = record {
  symbol = "N";
  node_ref = "select";
  status = NullabilityStatus.unknown_nullability;
}

-- The definition of unknown status leaves the counter definitely not null.
counter-non_null : status_of patterns (unbound ∷ []) counter ≡ NullabilityStatus.definitely_non_null
unfolding status_of values_of join collect all
counter-non_null = refl

status_of-non_null_example :
    (status_of patterns (unbound ∷ []) counter ≡ NullabilityStatus.definitely_non_null) ↔ (
      (default_status patterns (some "0") ≡ NullabilityStatus.definitely_non_null)
      × ((d : Definition)
          → Has d (unbound ∷ [])
          → d.symbol ≡ "N"
          → is_concrete d.status ≡ true
          → is_non_null d.status ≡ true))
status_of-non_null_example = status_of-non_null patterns (unbound ∷ []) counter

abbrev null_first : List NullabilityStatus
null_first = NullabilityStatus.definitely_null ∷ NullabilityStatus.definitely_non_null ∷ []

join-merge_all_example : join null_first ≡ merge_all null_first
join-merge_all_example = join-merge_all null_first
