-- ===== src/Governance/Session.antt =====
-- Methods of the store that may raise. What a committed session wrote stays written, so the state
-- comes back beside an error too; a session that raises is rolled back.
use atlas_db_agent.Prelude.{Bool, true, false, Option, none, some}
use atlas_db_agent.Governance.Rows.{Db}

-- One name for each `raise` of the store, `sqlite3.IntegrityError` and pydantic's validation.
pub data StoreError : Type 0 where
  invalid_content_digest identity_collision unknown_artifact payload_mismatch : StoreError
  binding_conflict not_a_baseline not_a_candidate not_a_scenario_spec : StoreError
  changes_behavior_id changes_source_symbol_id changes_symbol_lineage_id : StoreError
  artifact_digest_mismatch scenario_not_admitted : StoreError
  integrity_error validation_error gherkin_error : StoreError

pub data Result {ℓ} (A : Type ℓ) : Type ℓ where
  ok : A → Result A
  err : StoreError → Result A

abbrev pub Exec : Type 0 → Type 0
Exec A = Db → Result A × Db

module _ {A : Type 0} where
  unfoldable pub pure : A → Exec A
  pure a db = (ok a, db)

  unfoldable pub raise : StoreError → Exec A
  raise e db = (err e, db)

  -- `session()`: commit, or roll back and raise.
  abbrev pub close : Db → Result A → Db → Result A × Db
  close before (ok a) after = (ok a, after)
  close before (err e) after = (err e, before)

  unfoldable pub session : Exec A → Exec A
  session m db = let (r, db') = m db in close db r db'

  -- A value that was computed, or the error of its computation.
  unfoldable pub or_raise : StoreError → Option A → Exec A
  unfolding pure raise
  or_raise e none = raise e
  or_raise e (some a) = pure a

-- `if not test: raise e`
unfoldable pub require : Bool → StoreError → Exec (Unit {0})
unfolding pure raise
require true e = pure tt
require false e = raise e

module _ {A B : Type 0} where
  abbrev pub continue : Result A → (A → Exec B) → Exec B
  continue (ok a) f db = f a db
  continue (err e) f db = (err e, db)

  infixl 10 ◌>>=◌ ◌>>◌
  -- Opening this opens the actions above too.
  unfoldable pub ◌>>=◌ : Exec A → (A → Exec B) → Exec B
  unfolding pure raise or_raise require session
  ◌>>=◌ m f db = let (r, db') = m db in continue r f db'

  abbrev pub ◌>>◌ : Exec A → Exec B → Exec B
  m >> n = m >>= λ _. n
