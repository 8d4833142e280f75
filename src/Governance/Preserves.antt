-- ===== src/Governance/Preserves.antt =====
-- Properties of the tables that every action of the store keeps, whether it returns or raises.
pub mod Laws
pub mod Inserts
pub mod Admitting
pub mod Comparing
pub mod Binding
pub mod Batching
use atlas_db_agent.Prelude.{Bool, true, false, String, Option, none, some, ◌≡◌, refl, sym, subst}
use atlas_db_agent.Governance.Rows.{Db}
use atlas_db_agent.Governance.Session.{
  StoreError, Result, ok, err, Exec, pure, raise, or_raise, require, session, close, continue,
  ◌>>=◌,
}

pub record Preserves {ℓ} {A : Type 0} (P : Db → Type ℓ) (m : Exec A) : Type ℓ where
  pub at : (db : Db) → P db → P (m db).1

close-keeps {ℓ} :
    {A : Type 0} (P : Db → Type ℓ) (before after : Db) (r : Result A)
    → P before
    → P after
    → P (close before r after).1
close-keeps P before after (ok a) p q = q
close-keeps P before after (err e) p q = p

module _ {ℓ} {A : Type 0} {P : Db → Type ℓ} where
  -- An action that only reads.
  pub Preserves-of_reads : (m : Exec A) → ((db : Db) → (m db).1 ≡ db) → Preserves P m
  Preserves-of_reads m r = record { at = λ db p. subst P (sym (r db)) p }

  pub Preserves-pure : (a : A) → Preserves P (pure a)
  unfolding pure
  Preserves-pure a = record { at = λ db p. p }

  pub Preserves-raise : (e : StoreError) → Preserves P (raise {A = A} e)
  unfolding raise
  Preserves-raise e = record { at = λ db p. p }

  pub Preserves-session : (m : Exec A) → Preserves P m → Preserves P (session m)
  unfolding session
  Preserves-session m k = record {
    at = λ db p. let (r, db') = m db in close-keeps P db db' r p (k.at db p);
  }

  -- What follows a computed value may use that it was there.
  pub Preserves-or_raise :
      {B : Type 0} (e : StoreError) (o : Option B) (f : B → Exec A)
      → ((b : B) → o ≡ some b → Preserves P (f b))
      → Preserves P (or_raise e o >>= f)
  unfolding ◌>>=◌
  Preserves-or_raise e none f k = record { at = λ db p. p }
  Preserves-or_raise e (some b) f k = record { at = (k b refl).at }

pub Preserves-require {ℓ} :
    {P : Db → Type ℓ} (b : Bool) (e : StoreError) → Preserves P (require b e)
unfolding require
Preserves-require true e = record { at = λ db p. p }
Preserves-require false e = record { at = λ db p. p }

module _ {ℓ} {A B : Type 0} {P : Db → Type ℓ} where
  continue-keeps :
      (f : A → Exec B) (r : Result A) (db : Db)
      → P db
      → ((a : A) → Preserves P (f a))
      → P (continue r f db).1
  continue-keeps f (ok a) db p g = (g a).at db p
  continue-keeps f (err e) db p g = p

  pub Preserves-bind :
      (m : Exec A) (f : A → Exec B)
      → Preserves P m
      → ((a : A) → Preserves P (f a))
      → Preserves P (m >>= f)
  unfolding ◌>>=◌
  Preserves-bind m f k g = record {
    at = λ db p. let (r, db') = m db in continue-keeps f r db' (k.at db p) g;
  }

pub ruleset preserves_rules = (
  Preserves-pure, Preserves-raise, Preserves-require, Preserves-session, Preserves-or_raise,
  Preserves-bind,
)
