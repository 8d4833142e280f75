-- ===== src/Analysis/Listed.antt =====
-- What the loops over references in `_loop_ancestors` return (analysis/modalities.py).
use atlas_db_agent.Prelude.{
  ◌≡◌, refl, sym, ap, ◌∙◌, subst, ◌⊎◌, ◌↔◌, inl, inr, String, Option, none, some, List, [], ◌∷◌,
  ◌++◌, Has, str_eq, eq_iff, arith, collect, Option-cases,
}
use atlas_db_agent.Analysis.Modality.{for_each, concat_lists, ancestors}
use atlas_db_agent.Prelude.{unique}
use atlas_db_agent.Prelude.Texts.{str_le}
use atlas_db_agent.Prelude.Members.{Has-sort, Has-collect, Has-unique}

abbrev pub Entries : Type 0
Entries = List (String × List String)

pub Has-append : {A : Type 0} (x : A) (xs ys : List A) → Has x (xs ++ ys) ↔ (Has x xs ⊎ Has x ys)
Has-append x [] ys = (inr, elim [ inl h ↦ absurd h | inr h ↦ h ])
Has-append x (y ∷ xs) ys = ground (arith, Has-append x xs ys)

pub some_injective : {A : Type 0} {x y : A} → some x ≡ some y → x ≡ y
some_injective {A} {x} {y} q = ap (λ o. elim o as (λ _. A) [ none ↦ x | some z ↦ z ]) q

-- What a loop over the references returned is what the walks from each of them returned.
pub for_each-Has :
    (f : String → Option Entries) (refs : List String) (out : Entries)
    → for_each f refs ≡ some out
    → (entry : String × List String)
    → Has entry out
      ↔ ((r : String) × (part : Entries) × Has r refs × (f r ≡ some part) × Has entry part)
for_each-Has f [] out e entry =
    let same = some_injective e in
    (λ h. absurd (subst (Has entry) (sym same) h), λ (s, part, m, w, z). absurd m)
for_each-Has f (r ∷ refs) out e entry = elim (Option-cases (f r)) [
  | inl n ↦ absurd (ground (arith, rw n at e))
  | inr (first, p) ↦ elim (Option-cases (for_each f refs)) [
    | inl n ↦ absurd (ground (arith, rw (p, n) at e))
    | inr (rest, q) ↦
        let same = some_injective (rw (p, q) at e) in
        let (to, from) = for_each-Has f refs rest q entry in
        let (split, join) = Has-append entry first rest in
        (
          λ h. elim (split (subst (Has entry) (sym same) h)) [
            | inl k ↦ (r, first, inl refl, p, k)
            | inr k ↦ let (s, part, m, w, z) = to k in (s, part, inr m, w, z)
          ],
          λ (s, part, m, w, z). subst (Has entry) same (
              join (elim m [
                | inl g ↦ inl (subst (Has entry) (some_injective (sym w ∙ ap f (sym g) ∙ p)) z)
                | inr k ↦ inr (from (s, part, k, w, z))
              ])),
        )
  ]
]

pub for_each-part :
    (f : String → Option Entries) (refs : List String) (out : Entries)
    → for_each f refs ≡ some out
    → (r : String) → Has r refs
    → (part : Entries) × (f r ≡ some part)
for_each-part f [] out e r h = absurd h
for_each-part f (x ∷ refs) out e r h = elim (Option-cases (f x)) [
  | inl n ↦ absurd (ground (arith, rw n at e))
  | inr (first, p) ↦ elim (Option-cases (for_each f refs)) [
    | inl n ↦ absurd (ground (arith, rw (p, n) at e))
    | inr (rest, q) ↦ elim h [
      | inl same ↦ (first, ap f (sym same) ∙ p)
      | inr m ↦ for_each-part f refs rest q r m
    ]
  ]
]

-- The entries of a node and the loops in them.
abbrev pub Listed : Entries → String → String → Type 0
Listed out ref l = (found : List String) × Has (ref, found) out × Has l found

Has-concat_lists :
    (l : String) (xss : List (List String))
    → Has l (concat_lists xss) ↔ ((xs : List String) × Has xs xss × Has l xs)
Has-concat_lists l [] = (λ h. absurd h, λ (xs, h, _). absurd h)
Has-concat_lists l (ys ∷ xss) =
    let (to, from) = Has-concat_lists l xss in
    let (split, join) = Has-append l ys (concat_lists xss) in
    (
      λ h. elim (split h) [
        | inl k ↦ (ys, inl refl, k)
        | inr k ↦ let (xs, m, z) = to k in (xs, inr m, z)
      ],
      λ (xs, m, z).
          join (elim m [ inl e ↦ inl (subst (Has l) (sym e) z) | inr k ↦ inr (from (xs, k, z)) ]),
    )

-- `ancestors` has the loops of all the entries of a node.
pub ancestors-Listed :
    (ref l : String) (out : Entries) → Has l (ancestors ref out) ↔ Listed out ref l
unfolding ancestors
ancestors-Listed ref l out =
    let lists = collect (λ (e : String × List String). str_eq e.0 ref) (λ e. e.1) out in
    let (unsort, resort) = Has-sort str_le l (unique (concat_lists lists)) in
    let (some_of, one_of) = Has-unique l (concat_lists lists) in
    let (to, from) = Has-concat_lists l lists in
    (
      λ h.
          let (xs, m, z) = to (some_of (unsort h)) in
          let (entry, k, t, e) =
            (Has-collect (λ (x : String × List String). str_eq x.0 ref) (λ x. x.1) xs out).0 m in
          (
            xs,
            subst (λ y. Has y out)
                (ap (λ r. (r, entry.1)) ((eq_iff entry.0 ref).0 t) ∙ ap (λ ys. (ref, ys)) e) k,
            z,
          ),
      λ (found, k, z). resort (
          one_of (
            from (
              found,
              (Has-collect (λ (x : String × List String). str_eq x.0 ref) (λ x. x.1) found out).1
                  ((ref, found), k, (eq_iff ref ref).1 refl, refl),
              z,
            ))),
    )
