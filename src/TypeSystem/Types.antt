-- ===== src/TypeSystem/Types.antt =====
-- Canonical SQL types (type_system/models.py).
use atlas_db_agent.Prelude.{ℕ, Bool, String, Option, List}

pub data SqlTypeFamily : Type 0 where
  small_integer integer big_integer decimal floating_point character graphic : SqlTypeFamily
  date time timestamp boolean binary lob xml distinct unknown_family : SqlTypeFamily

unfoldable pub family_value : SqlTypeFamily → String
family_value small_integer = "SMALL_INTEGER"
family_value integer = "INTEGER"
family_value big_integer = "BIG_INTEGER"
family_value decimal = "DECIMAL"
family_value floating_point = "FLOATING_POINT"
family_value character = "CHARACTER"
family_value graphic = "GRAPHIC"
family_value date = "DATE"
family_value time = "TIME"
family_value timestamp = "TIMESTAMP"
family_value boolean = "BOOLEAN"
family_value binary = "BINARY"
family_value lob = "LOB"
family_value xml = "XML"
family_value distinct = "DISTINCT"
family_value unknown_family = "UNKNOWN"

pub data TypeResolutionStatus : Type 0 where
  declared catalog_resolved ddl_resolved authority_override : TypeResolutionStatus
  dialect_inferred conflicting unknown_status : TypeResolutionStatus

unfoldable pub status_value : TypeResolutionStatus → String
status_value declared = "DECLARED"
status_value catalog_resolved = "CATALOG_RESOLVED"
status_value ddl_resolved = "DDL_RESOLVED"
status_value authority_override = "AUTHORITY_OVERRIDE"
status_value dialect_inferred = "DIALECT_INFERRED"
status_value conflicting = "CONFLICT"
status_value unknown_status = "UNKNOWN"

pub data ResolutionCompleteness : Type 0 where
  complete partial unknown_completeness : ResolutionCompleteness

-- `CanonicalSqlType`
pub record SqlType : Type 0 where
  pub family : SqlTypeFamily
  pub database_type : String
  pub length : Option ℕ
  pub precision : Option ℕ
  pub scale : Option ℕ
  pub nullable : Option Bool
  pub code_page : Option String
  pub for_bit_data : Bool
  pub distinct_type_name : Option String
  pub resolution_status : TypeResolutionStatus
  pub completeness : ResolutionCompleteness
  pub source_refs : List String

-- `TypeResolution`
pub record TypeResolution : Type 0 where
  pub subject_ref : String
  pub resolved_type : SqlType
  pub attempted_sources : List String
  pub selected_source : Option String
  pub conflicts : List String
  pub blockers : List String
