-- ===== src/Governance/Actions.antt =====
-- Actions that return: what their parts returned, and actions that do not read the store.
use atlas_db_agent.Prelude.{Bool, true, false, Option, none, some, ◌≡◌, refl, sym, ap, ◌∙◌, arith}
use atlas_db_agent.Governance.Rows.{Db}
use atlas_db_agent.Governance.Session.{
  StoreError, Result, ok, err, Exec, pure, raise, or_raise, require, session, close, continue,
  ◌>>=◌,
}

module _ {A : Type 0} where
  -- Where it returns, it leaves the store as it is, and it returns the same in any store.
  pub record IsStateless (m : Exec A) : Type 0 where
    pub kept : (db db' : Db) (a : A) → m db ≡ (ok a, db') → db' ≡ db
    pub anywhere : (db db' other : Db) (a : A) → m db ≡ (ok a, db') → m other ≡ (ok a, other)

  pub IsStateless-pure : (a : A) → IsStateless (pure a)
  unfolding pure
  IsStateless-pure a = record {
    kept = λ db db' b e. sym (ap (λ x. x.1) e);
    anywhere = λ db db' other b e. ap (λ r. (r, other)) (ap (λ x. x.0) e);
  }

  pub IsStateless-or_raise : (e : StoreError) (o : Option A) → IsStateless (or_raise e o)
  unfolding or_raise pure raise
  IsStateless-or_raise e (some a) = IsStateless-pure a
  IsStateless-or_raise e none = record {
    kept = λ db db' b q. absurd (ground (arith, ap (λ x. x.0) q));
    anywhere = λ db db' other b q. absurd (ground (arith, ap (λ x. x.0) q));
  }

  closed-ok :
      (db db' after : Db) (r : Result A) (a : A)
      → close db r after ≡ (ok a, db')
      → (r ≡ ok a) × (after ≡ db')
  closed-ok db db' after (ok b) a e = (ap (λ x. x.0) e, ap (λ x. x.1) e)
  closed-ok db db' after (err x) a e = absurd (ground (arith, ap (λ y. y.0) e))

  pub session-ok :
      (m : Exec A) (db db' : Db) (a : A) → session m db ≡ (ok a, db') → m db ≡ (ok a, db')
  unfolding session
  session-ok m db db' a e =
      let (r, after) = closed-ok db db' ((m db).1) ((m db).0) a e in
      ap (λ x. (x, (m db).1)) r ∙ ap (λ d. (ok a, d)) after

  pub ok-session :
      (m : Exec A) (db db' : Db) (a : A) → m db ≡ (ok a, db') → session m db ≡ (ok a, db')
  unfolding session
  ok-session m db db' a e = rw e refl

pub IsStateless-require : (b : Bool) (e : StoreError) → IsStateless (require b e)
unfolding require pure raise
IsStateless-require true e = IsStateless-pure tt
IsStateless-require false e = record {
  kept = λ db db' b q. absurd (ground (arith, ap (λ x. x.0) q));
  anywhere = λ db db' other b q. absurd (ground (arith, ap (λ x. x.0) q));
}

module _ {A B : Type 0} where
  continued-ok :
      (f : A → Exec B) (r : Result A) (db db' : Db) (b : B)
      → continue r f db ≡ (ok b, db')
      → (a : A) × (r ≡ ok a) × (f a db ≡ (ok b, db'))
  continued-ok f (ok a) db db' b e = (a, refl, e)
  continued-ok f (err x) db db' b e = absurd (ground (arith, ap (λ y. y.0) e))

  -- What the two parts of an action returned.
  pub bind-ok :
      (m : Exec A) (f : A → Exec B) (db db' : Db) (b : B)
      → (m >>= f) db ≡ (ok b, db')
      → (a : A) × (mid : Db) × (m db ≡ (ok a, mid)) × (f a mid ≡ (ok b, db'))
  unfolding ◌>>=◌
  bind-ok m f db db' b e =
      let (a, q, rest) = continued-ok f ((m db).0) ((m db).1) db' b e in
      (a, (m db).1, ap (λ r. (r, (m db).1)) q, rest)

  pub ok-bind :
      (m : Exec A) (f : A → Exec B) (db mid : Db) (a : A)
      → m db ≡ (ok a, mid)
      → (m >>= f) db ≡ f a mid
  unfolding ◌>>=◌
  ok-bind m f db mid a e = rw e refl

  pub IsStateless-bind :
      (m : Exec A) (f : A → Exec B)
      → IsStateless m
      → ((a : A) → IsStateless (f a))
      → IsStateless (m >>= f)
  IsStateless-bind m f first next = record {
    kept = λ db db' b e.
        let (a, mid, p, q) = bind-ok m f db db' b e in
        (next a).kept mid db' b q ∙ first.kept db mid a p;
    anywhere = λ db db' other b e.
        let (a, mid, p, q) = bind-ok m f db db' b e in
        ok-bind m f other other a (first.anywhere db mid other a p)
        ∙ (next a).anywhere mid db' other b q;
  }
