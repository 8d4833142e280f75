-- ===== src/Prelude/Sorting.antt =====
-- `sorted(xs, key=…)` and SQL's `ORDER BY`: a stable insertion sort by a Boolean test `le`.
use mathlib.Core.Path.{◌≡◌, refl, sym, ap, subst, ◌∙◌}
use Prim.Native.Nat.{ℕ, ◌≤◌}
use mathlib.Core.Option.{Option, none, some}
use mathlib.Core.Bool.{Bool, true, ◌||◌}
use mathlib.Core.List.{List, [], ◌∷◌}
use atlas_db_agent.Prelude.Tests.{leb, if◌then◌else◌, Option-cases, Bool-cases}
use mathlib.Core.Logic.{inl, inr}
use atlas_db_agent.Prelude.Lists.{All, Has, nonempty, collect, any, nonempty-collect}
use native.Mathlib.Omega.{arith}

module _ {ℓ} {A : Type ℓ} (le : A → A → Bool) where
  unfoldable pub insert_sorted : A → List A → List A
  insert_sorted x [] = x ∷ []
  insert_sorted x (y ∷ ys) = if le x y then x ∷ y ∷ ys else y ∷ insert_sorted x ys

  unfoldable pub sort : List A → List A
  unfolding insert_sorted
  sort [] = []
  sort (x ∷ xs) = insert_sorted x (sort xs)

  -- Each element may stand before the next one.
  abbrev pub IsSorted : List A → Type 0
  IsSorted [] = Unit
  IsSorted (x ∷ []) = Unit
  IsSorted (x ∷ y ∷ ys) = (le x y ≡ true) × IsSorted (y ∷ ys)

  pub sort-eq_of_IsSorted : (xs : List A) → IsSorted xs → sort xs ≡ xs
  unfolding sort
  sort-eq_of_IsSorted [] h = refl
  sort-eq_of_IsSorted (x ∷ []) h = refl
  sort-eq_of_IsSorted (x ∷ y ∷ ys) h = rw (sort-eq_of_IsSorted (y ∷ ys) h.1, h.0)

  nonempty-insert_sorted : (x : A) (xs : List A) → nonempty (insert_sorted x xs) ≡ true
  unfolding insert_sorted
  nonempty-insert_sorted x [] = refl
  nonempty-insert_sorted x (y ∷ ys) = ground arith

  pub nonempty-sort : (xs : List A) → nonempty (sort xs) ≡ nonempty xs
  unfolding sort
  nonempty-sort [] = refl
  nonempty-sort (x ∷ xs) = nonempty-insert_sorted x (sort xs)

-- `if tuple(sorted(value(x) for x in xs if test(x))):`
pub nonempty-sort-collect {ℓ κ} :
    {A : Type ℓ} {B : Type κ} (le : B → B → Bool) (test : A → Bool) (value : A → B) (xs : List A)
    → nonempty (sort le (collect test value xs)) ≡ any test xs
nonempty-sort-collect le test value xs =
    nonempty-sort le (collect test value xs) ∙ nonempty-collect test value xs

module _ {ℓ} {A : Type ℓ} (le : A → A → Bool) (p : A → Bool) where
  any-insert_sorted : (x : A) (xs : List A) → any p (insert_sorted le x xs) ≡ (p x || any p xs)
  unfolding insert_sorted any
  any-insert_sorted x [] = refl
  any-insert_sorted x (y ∷ ys) = ground (arith, any-insert_sorted x ys)

  pub any-sort : (xs : List A) → any p (sort le xs) ≡ any p xs
  unfolding sort any
  any-sort [] = refl
  any-sort (x ∷ xs) = any-insert_sorted x (sort le xs) ∙ ap (λ b. p x || b) (any-sort xs)

-- `xs[0]`
abbrev pub first {ℓ} : {A : Type ℓ} → List A → Option A
first [] = none
first (x ∷ xs) = some x

pub none-first {ℓ} : {A : Type ℓ} (ys : List A) → first ys ≡ none → nonempty ys ≡ true → ⊥
none-first [] f n = ground arith
none-first (y ∷ ys) f n = ground arith

-- The first element of a list that is sorted by a key has the least key.
module _ {ℓ} {A : Type ℓ} (key : A → ℕ) where
  abbrev pub by_key : A → A → Bool
  by_key a b = leb (key a) (key b)

  abbrev lesser : A → Option A → Option A
  lesser x none = some x
  lesser x (some z) = if by_key x z then some x else some z

  first-insert_sorted :
      (x : A) (xs : List A) → first (insert_sorted by_key x xs) ≡ lesser x (first xs)
  unfolding insert_sorted
  first-insert_sorted x [] = refl
  first-insert_sorted x (y ∷ ys) = ground arith

  first-All : (xs : List A) (P : A → Type 0) → first (sort by_key xs) ≡ none → All P xs
  first-All [] P e = tt
  first-All (x ∷ xs) P e =
      absurd (none-first (sort by_key (x ∷ xs)) e (nonempty-sort by_key (x ∷ xs)))

  All-lesser :
      (xs : List A) (y z : A)
      → key y ≤ key z
      → All (λ x. key z ≤ key x) xs
      → All (λ x. key y ≤ key x) xs
  All-lesser [] y z l a = tt
  All-lesser (x ∷ xs) y z l (k, a) = (omega arith, All-lesser xs y z l a)

  lesser-least : (x z y : A) → lesser x (some z) ≡ some y → (key y ≤ key x) × (key y ≤ key z)
  lesser-least x z y e = elim (Bool-cases (by_key x z)) [
    | inl t ↦
        let same : some x ≡ some y = rw t at e in
        let p : x ≡ y = cc same in
        subst (λ w. (key w ≤ key x) × (key w ≤ key z)) p (omega arith, ground arith)
    | inr f ↦
        let same : some z ≡ some y = rw f at e in
        let p : z ≡ y = cc same in
        subst (λ w. (key w ≤ key x) × (key w ≤ key z)) p (ground arith, omega arith)
  ]

  pub first-sort-least :
      (xs : List A) (y : A) → first (sort by_key xs) ≡ some y → All (λ x. key y ≤ key x) xs
  unfolding sort
  first-sort-least [] y e = tt
  first-sort-least (x ∷ xs) y e =
      let q : lesser x (first (sort by_key xs)) ≡ some y =
        sym (first-insert_sorted x (sort by_key xs)) ∙ e in
      elim (Option-cases (first (sort by_key xs))) [
        | inl n ↦
            let same : some x ≡ some y = rw n at q in
            let p : x ≡ y = cc same in
            (subst (λ w. key w ≤ key x) p (omega arith), first-All xs _ n)
        | inr (z, f) ↦
            let (a, b) = lesser-least x z y (rw f at q) in
            (a, All-lesser xs y z b (first-sort-least xs z f))
      ]

module _ {A : Type 0} (key : A → ℕ) where
  -- It is one of the elements.
  pub first-sort-Has : (xs : List A) (y : A) → first (sort (by_key key) xs) ≡ some y → Has y xs
  unfolding sort
  first-sort-Has [] y e = absurd (ground arith)
  first-sort-Has (x ∷ xs) y e =
      let q : lesser key x (first (sort (by_key key) xs)) ≡ some y =
        sym (first-insert_sorted key x (sort (by_key key) xs)) ∙ e in
      elim (Option-cases (first (sort (by_key key) xs))) [
        | inl n ↦ let same : some x ≡ some y = rw n at q in inl (cc same)
        | inr (z, f) ↦ elim (Bool-cases (by_key key x z)) [
          | inl t ↦ let same : some x ≡ some y = rw (f, t) at q in inl (cc same)
          | inr t ↦
              let same : some z ≡ some y = rw (f, t) at q in inr (first-sort-Has xs y (f ∙ same))
        ]
      ]
