-- ===== src/Prelude/Members.antt =====
-- Membership in the lists that the helpers build.
use Prim.Native.Nat.{suc}
use mathlib.Core.Path.{◌≡◌, refl, sym, ap, ◌∙◌, subst}
use mathlib.Core.Logic.{◌↔◌, ◌⊎◌, inl, inr}
use mathlib.Core.Bool.{Bool, true}
use mathlib.Core.List.{List, [], ◌∷◌, map}
use text.Mathlib.TextEquality.{eq_iff}
use Prim.Native.String.{String}
use native.Mathlib.Omega.{arith}
use atlas_db_agent.Prelude.Tests.{Bool-cases}
use atlas_db_agent.Prelude.Lists.{Has, unique, contains, length, collect, any, all}
use atlas_db_agent.Prelude.Sorting.{sort, insert_sorted}

module _ {A : Type 0} where
  Has-insert_sorted :
      (le : A → A → Bool) (y x : A) (xs : List A)
      → Has y (insert_sorted le x xs) ↔ ((x ≡ y) ⊎ Has y xs)
  unfolding insert_sorted
  Has-insert_sorted le y x [] = (λ h. h, λ h. h)
  Has-insert_sorted le y x (z ∷ zs) = ground (arith, Has-insert_sorted le y x zs)

  pub Has-sort : (le : A → A → Bool) (y : A) (xs : List A) → Has y (sort le xs) ↔ Has y xs
  unfolding sort
  Has-sort le y [] = (λ h. h, λ h. h)
  Has-sort le y (x ∷ xs) = ground (arith, Has-insert_sorted le y x (sort le xs), Has-sort le y xs)

  length-insert_sorted :
      (le : A → A → Bool) (x : A) (xs : List A) → length (insert_sorted le x xs) ≡ suc (length xs)
  unfolding insert_sorted
  length-insert_sorted le x [] = refl
  length-insert_sorted le x (z ∷ zs) = ground (arith, length-insert_sorted le x zs)

  pub length-sort : (le : A → A → Bool) (xs : List A) → length (sort le xs) ≡ length xs
  unfolding sort
  length-sort le [] = refl
  length-sort le (x ∷ xs) = length-insert_sorted le x (sort le xs) ∙ ap suc (length-sort le xs)

  pub all-Has : (p : A → Bool) (xs : List A) → (all p xs ≡ true) ↔ ((y : A) → Has y xs → p y ≡ true)
  unfolding all
  all-Has p [] = (λ e y h. absurd h, λ h. refl)
  all-Has p (x ∷ xs) =
      let (to, from) = all-Has p xs in
      (
        λ e y. elim [
          | inl q ↦ subst (λ z. p z ≡ true) q (ground (arith, e))
          | inr h ↦ to (ground (arith, e)) y h
        ],
        λ h. let a = h x (inl refl) in let b = from (λ y m. h y (inr m)) in ground arith,
      )

  pub any-Has :
      (p : A → Bool) (xs : List A) → (any p xs ≡ true) ↔ ((y : A) × Has y xs × (p y ≡ true))
  unfolding any
  any-Has p [] = (λ e. absurd (ground (arith, e)), λ (y, h, e). absurd h)
  any-Has p (x ∷ xs) =
      let (to, from) = any-Has p xs in
      (
        λ e. elim (Bool-cases (p x)) [
          | inl t ↦ (x, inl refl, t)
          | inr f ↦ let (y, h, q) = to (rw f at e) in (y, inr h, q)
        ],
        λ (y, h, e). elim h [
          | inl q ↦ let t : p x ≡ true = subst (λ z. p z ≡ true) (sym q) e in rw t refl
          | inr m ↦ let t = from (y, m, e) in ground arith
        ],
      )

module _ {A B : Type 0} (test : A → Bool) (value : A → B) where
  pub Has-collect :
      (y : B) (xs : List A)
      → Has y (collect test value xs) ↔ ((x : A) × Has x xs × (test x ≡ true) × (value x ≡ y))
  unfolding collect
  Has-collect y [] = (λ h. absurd h, λ (x, h, t, e). absurd h)
  Has-collect y (x ∷ xs) =
      let (to, from) = Has-collect y xs in
      elim (Bool-cases (test x)) [
        | inl t ↦ rw t (
          elim [
            | inl e ↦ (x, inl refl, t, e)
            | inr h ↦ let (z, m, u, e) = to h in (z, inr m, u, e)
          ],
          λ (z, m, u, e). elim m [ inl q ↦ inl (rw q e) | inr h ↦ inr (from (z, h, u, e)) ],
        )
        | inr f ↦ rw f (
          λ h. let (z, m, u, e) = to h in (z, inr m, u, e),
          λ (z, m, u, e). elim m [
            | inl q ↦ absurd (ground (arith, f, subst (λ w. test w ≡ true) (sym q) u))
            | inr h ↦ from (z, h, u, e)
          ],
        )
      ]

module _ {A B : Type 0} (f : A → B) where
  pub Has-map : (y : B) (xs : List A) → Has y (map f xs) ↔ ((x : A) × Has x xs × (f x ≡ y))
  Has-map y [] = (λ h. absurd h, λ (x, h, e). absurd h)
  Has-map y (x ∷ xs) =
      let (to, from) = Has-map y xs in
      (
        elim [ inl e ↦ (x, inl refl, e) | inr h ↦ let (z, m, e) = to h in (z, inr m, e) ],
        λ (z, m, e). elim m [ inl q ↦ inl (rw q e) | inr h ↦ inr (from (z, h, e)) ],
      )

pub contains-Has : (x : String) (xs : List String) → (contains x xs ≡ true) ↔ Has x xs
unfolding contains
contains-Has x [] = (λ e. absurd (ground (arith, e)), λ h. absurd h)
contains-Has x (y ∷ ys) = ground (arith, eq_iff y x, contains-Has x ys)

-- `unique` keeps the elements.
pub Has-unique : (x : String) (xs : List String) → Has x (unique xs) ↔ Has x xs
unfolding unique
Has-unique x [] = (λ h. h, λ h. h)
Has-unique x (y ∷ ys) =
    let (to, from) = Has-unique x ys in
    elim (Bool-cases (contains y ys)) [
      | inl t ↦ rw t (
        λ h. inr (to h),
        elim [ inl e ↦ from (subst (λ z. Has z ys) e ((contains-Has y ys).0 t)) | inr h ↦ from h ],
      )
      | inr f ↦ rw f (
        elim [ inl e ↦ inl e | inr h ↦ inr (to h) ],
        elim [ inl e ↦ inl e | inr h ↦ inr (from h) ],
      )
    ]
