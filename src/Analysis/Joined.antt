-- ===== src/Analysis/Joined.antt =====
-- When a variable is called definitely not null.
use atlas_db_agent.Prelude.{
  ◌≡◌, refl, sym, ap, ◌∙◌, subst, ◌↔◌, inl, inr, Bool, true, ◌&&◌, String, Option, none, some, List,
  [], ◌∷◌, map, Has, str_eq, eq_iff, arith, collect, nonempty, all, Bool-cases,
}
use atlas_db_agent.Prelude.Members.{Has-collect, Has-map, all-Has}
use atlas_db_agent.Analysis.Records.{DeclaredSymbol}
use atlas_db_agent.Analysis.Nullability.{
  Patterns, NullabilityStatus, Definition, is_concrete, is_non_null, is_null, join, default_status,
  values_of, status_of,
}

abbrev concrete_of : List NullabilityStatus → List NullabilityStatus
concrete_of ss = collect is_concrete (λ s. s) ss

nonempty-Has : (xs : List NullabilityStatus) (s : NullabilityStatus) → Has s xs → nonempty xs ≡ true
nonempty-Has [] s h = absurd h
nonempty-Has (x ∷ xs) s h = refl

join-non_null :
    (ss : List NullabilityStatus)
    → (join ss ≡ NullabilityStatus.definitely_non_null)
      ↔ ((nonempty (concrete_of ss) && all is_non_null (concrete_of ss)) ≡ true)
unfolding join
join-non_null ss = elim (Bool-cases (nonempty (concrete_of ss))) [
  | inr f ↦ rw f (λ e. absurd (ground (arith, e)), λ e. absurd (ground (arith, e)))
  | inl t ↦ elim (Bool-cases (all is_non_null (concrete_of ss))) [
    | inl u ↦ rw (t, u) (λ _. refl, λ _. refl)
    | inr g ↦ elim (Bool-cases (all is_null (concrete_of ss))) [
      | inl u ↦ rw (t, g, u) (λ e. absurd (ground (arith, e)), λ e. absurd (ground (arith, e)))
      | inr u ↦ rw (t, g, u) (λ e. absurd (ground (arith, e)), λ e. absurd (ground (arith, e)))
    ]
  ]
]

module _ (p : Patterns) where
  -- A declared variable is called definitely not null exactly when its default is not null, and every
  -- definition of it in the procedure whose status is known is definitely not null: the definitions
  -- of unknown status do not count.
  pub status_of-non_null :
      (ds : List Definition) (declared : DeclaredSymbol)
      → (status_of p ds declared ≡ NullabilityStatus.definitely_non_null) ↔ (
          (default_status p declared.default_expression ≡ NullabilityStatus.definitely_non_null)
          × ((d : Definition)
              → Has d ds
              → d.symbol ≡ p.upper declared.symbol_name
              → is_concrete d.status ≡ true
              → is_non_null d.status ≡ true))
  unfolding status_of values_of
  status_of-non_null ds declared =
      let default = default_status p declared.default_expression in
      let values =
        collect (λ (d : Definition). str_eq d.symbol (p.upper declared.symbol_name)) (λ d. d) ds in
      let statuses = default ∷ map (λ (d : Definition). d.status) values in
      let (to, from) = join-non_null statuses in
      (
        λ e.
            let (_, every) = both (to e) in
            let held = (all-Has is_non_null (concrete_of statuses)).0 every in
            (
              non_null default (
                  held default (
                    kept statuses default (inl refl)
                      (concrete_default declared.default_expression))),
              λ d h q c. held d.status (
                  kept statuses d.status
                    (inr (
                      (Has-map (λ (x : Definition). x.status) d.status values).1 (
                        d,
                        (Has-collect
                              (λ (x : Definition). str_eq x.symbol (p.upper declared.symbol_name))
                              (λ x. x) d ds).1
                            (d, h, (eq_iff d.symbol (p.upper declared.symbol_name)).1 q, refl),
                        refl,
                      )))
                    c),
            ),
        λ (first, rest). from (
            joint
              (nonempty-Has (concrete_of statuses) default
                (kept statuses default (inl refl) (concrete_default declared.default_expression)))
              ((all-Has is_non_null (concrete_of statuses)).1 λ s h.
                let (x, m, c, e) = (Has-collect is_concrete (λ y. y) s statuses).0 h in
                subst (λ y. is_non_null y ≡ true) e
                  (elim m [
                    | inl q ↦ subst (λ y. is_non_null y ≡ true) q (rw first refl)
                    | inr w ↦
                        let (d, v, r) = (Has-map (λ (y : Definition). y.status) x values).0 w in
                        let (d', v', t, g) =
                          (Has-collect
                              (λ (y : Definition). str_eq y.symbol (p.upper declared.symbol_name))
                              (λ y. y) d ds).0
                            v in
                        subst (λ y. is_non_null y ≡ true) r
                          (subst (λ (y : Definition). is_non_null y.status ≡ true) g
                            (rest d' v' ((eq_iff d'.symbol (p.upper declared.symbol_name)).0 t) (
                              subst (λ y. is_concrete y ≡ true)
                                (sym (ap (λ (y : Definition). y.status) g ∙ r)) c)))
                  ]))),
      )
    where
      both : {a b : Bool} → (a && b) ≡ true → (a ≡ true) × (b ≡ true)
      both {a} {b} e = ground (arith, e)

      joint : {a b : Bool} → a ≡ true → b ≡ true → (a && b) ≡ true
      joint {a} {b} e g = ground (arith, e, g)

      kept :
          (ss : List NullabilityStatus) (s : NullabilityStatus)
          → Has s ss
          → is_concrete s ≡ true
          → Has s (concrete_of ss)
      kept ss s h c = (Has-collect is_concrete (λ y. y) s ss).1 (s, h, c, refl)

      non_null :
          (s : NullabilityStatus) → is_non_null s ≡ true → s ≡ NullabilityStatus.definitely_non_null
      non_null NullabilityStatus.definitely_non_null e = refl
      non_null _ e = absurd (ground (arith, e))

      concrete_default : (o : Option String) → is_concrete (default_status p o) ≡ true
      concrete_default none = refl
      concrete_default (some e) = elim (Bool-cases (str_eq (p.upper (p.strip e)) "NULL")) [
        | inl t ↦ rw t refl
        | inr f ↦ rw f refl
      ]
