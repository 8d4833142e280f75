-- ===== src/Authority/Repeats.antt =====
-- The texts that `Counter` counts more than once (bdd/authority.py).
use atlas_db_agent.Prelude.{
  ◌≤◌, ◌≡◌, refl, sym, ◌∙◌, subst, ◌↔◌, inl, inr, Bool, true, false, String, List, [], ◌∷◌, Has,
  any, nonempty, nonempty-collect, contains, str_eq, eq_iff, arith, ltb, Bool-cases,
}
use atlas_db_agent.Prelude.Texts.{distinct}
use atlas_db_agent.Prelude.Members.{any-Has}
use atlas_db_agent.Authority.Snapshots.{count_in, repeated}

-- No text occurs twice.
abbrev pub Once : List String → Type 0
Once xs = (x : String) → Has x xs → count_in x xs ≤ 1

Has-distinct :
    (x : String) (known xs : List String)
    → Has x xs
    → contains x known ≡ false
    → Has x (distinct known xs)
unfolding distinct contains
Has-distinct x known [] h n = absurd h
Has-distinct x known (y ∷ ys) h n = elim (Bool-cases (contains y known)) [
  | inl t ↦ rw t (elim h [
    | inl e ↦ absurd (ground (arith, n, subst (λ z. contains z known ≡ true) e t))
    | inr m ↦ Has-distinct x known ys m n
  ])
  | inr f ↦ rw f (elim h [
    | inl e ↦ inl e
    | inr m ↦ elim (Bool-cases (str_eq y x)) [
      | inl e ↦ inl ((eq_iff y x).0 e)
      | inr e ↦ inr (Has-distinct x (y ∷ known) ys m (rw (e, n) refl))
    ]
  ])
]

distinct-Has : (x : String) (known xs : List String) → Has x (distinct known xs) → Has x xs
unfolding distinct
distinct-Has x known [] h = absurd h
distinct-Has x known (y ∷ ys) h = elim (Bool-cases (contains y known)) [
  | inl t ↦ inr (distinct-Has x known ys (rw (t, distinct) at h))
  | inr f ↦
      let split : Has x (y ∷ distinct (y ∷ known) ys) = rw (f, distinct) at h in
      elim split [ inl e ↦ inl e | inr m ↦ inr (distinct-Has x (y ∷ known) ys m) ]
]

any-none :
    {A : Type 0} (p : A → Bool) (xs : List A)
    → (any p xs ≡ false) ↔ ((x : A) → Has x xs → p x ≡ false)
any-none p xs =
    let (to, from) = any-Has p xs in
    (
      λ e x h. elim (Bool-cases (p x)) [
        | inl t ↦ absurd (ground (arith, e, from (x, h, t)))
        | inr f ↦ f
      ],
      λ all_false. elim (Bool-cases (any p xs)) [
        | inl t ↦ let (x, h, q) = to t in absurd (ground (arith, q, all_false x h))
        | inr f ↦ f
      ],
    )

pub none-repeated : (xs : List String) → (nonempty (repeated xs) ≡ false) ↔ Once xs
unfolding repeated contains
none-repeated xs =
    let often = λ (x : String). ltb 1 (count_in x xs) in
    let counted = nonempty-collect often (λ x. x) (distinct [] xs) in
    let (to, from) = any-none often (distinct [] xs) in
    (
      λ e x h.
          let low = to (sym counted ∙ e) x (Has-distinct x [] xs h refl) in ground (arith, low),
      λ once.
          counted ∙ from (λ x h. let low = once x (distinct-Has x [] xs h) in ground (arith, low)),
    )
