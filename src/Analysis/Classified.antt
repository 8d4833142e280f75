-- ===== src/Analysis/Classified.antt =====
-- Which outcomes are classified as left to the caller or to an exception.
use atlas_db_agent.Prelude.{
  ◌≡◌, refl, subst, ◌⊎◌, ◌↔◌, inl, inr, Bool, true, false, not, ◌&&◌, ◌||◌, List, [], ◌∷◌, Has,
  str_eq, eq_iff, arith, nonempty, any, all, Bool-cases, if◌then◌else◌,
}
use atlas_db_agent.Prelude.Members.{Has-collect, all-Has, any-Has}
use atlas_db_agent.Analysis.Records.{
  TransactionPathOutcome, outcome_value, TransactionSurvivalClassification,
}
use atlas_db_agent.Analysis.Survival.{among, within, is_terminal, meaningful_of, classify}
use atlas_db_agent.Analysis.Survived.{among-Has}

-- The tests of `classify` in their order.
abbrev chain :
    Bool → Bool → Bool → Bool → Bool → Bool → Bool → Bool → TransactionSurvivalClassification
chain a b c d e f g h =
    if a
    then TransactionSurvivalClassification.must_commit
    else if b
    then TransactionSurvivalClassification.must_rollback
    else if c
    then TransactionSurvivalClassification.caller_contract_commit
    else if d
    then TransactionSurvivalClassification.caller_controlled
    else if e
    then TransactionSurvivalClassification.may_commit_or_rollback
    else if f
    then TransactionSurvivalClassification.may_commit_or_caller_controlled
    else if g
    then TransactionSurvivalClassification.caller_controlled_or_exceptional
    else if h
    then TransactionSurvivalClassification.may_commit_rollback_or_caller_controlled
    else TransactionSurvivalClassification.unresolved

chain-seventh :
    (a b c d e f g h : Bool)
    → (chain a b c d e f g h ≡ TransactionSurvivalClassification.caller_controlled_or_exceptional)
      ↔ ((not a && not b && not c && not d && not e && not f && g) ≡ true)
chain-seventh true b c d e f g h = ground arith
chain-seventh false true c d e f g h = ground arith
chain-seventh false false true d e f g h = ground arith
chain-seventh false false false true e f g h = ground arith
chain-seventh false false false false true f g h = ground arith
chain-seventh false false false false false true g h = ground arith
chain-seventh false false false false false false true h = (λ e. refl, λ e. refl)
chain-seventh false false false false false false false true = ground arith
chain-seventh false false false false false false false false = ground arith

module _ (m : List TransactionPathOutcome) where
  Has-among : (o : TransactionPathOutcome) → Has o m → among m o ≡ true
  Has-among o h =
      (any-Has (λ x. str_eq (outcome_value x) (outcome_value o)) m).1
        (o, h, (eq_iff (outcome_value o) (outcome_value o)).1 refl)

  -- What is among the outcomes is among the allowed ones.
  within-among :
      (allowed : List TransactionPathOutcome) (o : TransactionPathOutcome)
      → within m allowed ≡ true
      → among allowed o ≡ false
      → among m o ≡ false
  within-among allowed o w n = elim (Bool-cases (among m o)) [
    | inl t ↦
        let inside = (all-Has (among allowed) m).0 w o (among-Has m o t) in
        absurd (ground (arith, n, inside))
    | inr f ↦ f
  ]

  not_within :
      (allowed : List TransactionPathOutcome) (o : TransactionPathOutcome)
      → among m o ≡ true
      → among allowed o ≡ false
      → within m allowed ≡ false
  not_within allowed o t n = elim (Bool-cases (within m allowed)) [
    | inl w ↦ let out = within-among allowed o w n in absurd (ground (arith, t, out))
    | inr f ↦ f
  ]

abbrev exits : List TransactionPathOutcome
exits =
    TransactionPathOutcome.normal_exit_caller_controlled ∷ TransactionPathOutcome.exceptional_escape
    ∷ []

only_exits :
    (o : TransactionPathOutcome)
    → among exits o ≡ true
    → (o ≡ TransactionPathOutcome.normal_exit_caller_controlled)
      ⊎ (o ≡ TransactionPathOutcome.exceptional_escape)
unfolding any
only_exits TransactionPathOutcome.normal_exit_caller_controlled e = inl refl
only_exits TransactionPathOutcome.exceptional_escape e = inr refl
only_exits TransactionPathOutcome.explicit_commit e = absurd (ground (arith, e))
only_exits TransactionPathOutcome.explicit_rollback e = absurd (ground (arith, e))
only_exits TransactionPathOutcome.caller_contract_commit e = absurd (ground (arith, e))
only_exits TransactionPathOutcome.caller_contract_rollback e = absurd (ground (arith, e))
only_exits TransactionPathOutcome.commit_on_return e = absurd (ground (arith, e))
only_exits TransactionPathOutcome.no_terminal_path e = absurd (ground (arith, e))

no_commits :
    (m : List TransactionPathOutcome)
    → within m exits ≡ true
    → (nonempty m
        && within m
            (TransactionPathOutcome.explicit_commit ∷ TransactionPathOutcome.commit_on_return ∷ []))
      ≡ false
unfolding all any
no_commits [] w = refl
no_commits (x ∷ xs) w = elim (only_exits x (ground (arith, w))) [
  | inl e ↦ rw e refl
  | inr e ↦ rw e refl
]

no_escape :
    (m : List TransactionPathOutcome)
    → within m exits ≡ true
    → among m TransactionPathOutcome.exceptional_escape ≡ false
    → within m (TransactionPathOutcome.normal_exit_caller_controlled ∷ []) ≡ true
unfolding all any
no_escape [] w n = refl
no_escape (x ∷ xs) w n = elim (only_exits x (ground (arith, w))) [
  | inl e ↦ rw e (no_escape xs (ground (arith, w)) (ground (arith, n)))
  | inr e ↦ absurd (ground (arith, rw e at n))
]

abbrev normal_in : List TransactionPathOutcome → Bool
normal_in m = among m TransactionPathOutcome.normal_exit_caller_controlled

abbrev escape_in : List TransactionPathOutcome → Bool
escape_in m = among m TransactionPathOutcome.exceptional_escape

classify-exits :
    (os : List TransactionPathOutcome)
    → (classify os ≡ TransactionSurvivalClassification.caller_controlled_or_exceptional) ↔ (
        (within (meaningful_of os) exits
          && (not (normal_in (meaningful_of os)) || escape_in (meaningful_of os)))
        ≡ true)
unfolding classify any
classify-exits os =
    let m = meaningful_of os in
    let commit = TransactionPathOutcome.explicit_commit in
    let returned = TransactionPathOutcome.commit_on_return in
    let rollback = TransactionPathOutcome.explicit_rollback in
    let agreed = TransactionPathOutcome.caller_contract_commit in
    let undone = TransactionPathOutcome.caller_contract_rollback in
    let normal = TransactionPathOutcome.normal_exit_caller_controlled in
    let escape = TransactionPathOutcome.exceptional_escape in
    let (to, from) =
      chain-seventh (nonempty m && within m (commit ∷ returned ∷ []))
        (among m rollback && within m (rollback ∷ []))
        (among m agreed && within m (agreed ∷ undone ∷ []))
        (among m normal && within m (normal ∷ []))
        (within m (commit ∷ returned ∷ rollback ∷ []) && among m rollback)
        (within m (commit ∷ returned ∷ normal ∷ []) && among m normal) (within m exits)
        (among m commit || among m rollback || among m normal) in
    elim (Bool-cases (within m exits)) [
      | inr f ↦
          (λ e. let c = to e in absurd (ground (arith, c, f)), λ e. absurd (ground (arith, e, f)))
      | inl w ↦
          let no_commit = no_commits m w in
          let no_rollback = within-among m exits rollback w refl in
          let no_agreed = within-among m exits agreed w refl in
          elim (Bool-cases (among m escape)) [
            | inl t ↦
                let mixed = not_within m (normal ∷ []) escape t refl in
                let left = not_within m (commit ∷ returned ∷ normal ∷ []) escape t refl in
                (
                  λ e. ground (arith, w, t),
                  λ e. from (ground (arith, w, no_commit, no_rollback, no_agreed, mixed, left)),
                )
            | inr f ↦
                let all_normal = no_escape m w f in
                (
                  λ e. let c = to e in ground (arith, c, w, f, all_normal),
                  λ e.
                      let none_normal : among m normal ≡ false = ground (arith, e, f) in
                      from (ground (arith, w, no_commit, no_rollback, no_agreed, none_normal)),
                )
          ]
    ]

-- Outcomes are classified CALLER_CONTROLLED_OR_EXCEPTIONAL exactly when every terminal one of them is a
-- normal exit or an exceptional escape, and an escape is there if a normal exit is: also when no outcome
-- is terminal.
pub classify-caller_controlled_or_exceptional :
    (os : List TransactionPathOutcome)
    → (classify os ≡ TransactionSurvivalClassification.caller_controlled_or_exceptional) ↔ (
        ((o : TransactionPathOutcome)
          → Has o os
          → is_terminal o ≡ true
          → (o ≡ TransactionPathOutcome.normal_exit_caller_controlled)
            ⊎ (o ≡ TransactionPathOutcome.exceptional_escape))
        × (Has TransactionPathOutcome.normal_exit_caller_controlled os
            → Has TransactionPathOutcome.exceptional_escape os))
unfolding any
classify-caller_controlled_or_exceptional os =
    let m = meaningful_of os in
    let normal = TransactionPathOutcome.normal_exit_caller_controlled in
    let escape = TransactionPathOutcome.exceptional_escape in
    let (to, from) = classify-exits os in
    (
      λ e.
          let tests = to e in
          let inside : within m exits ≡ true = ground (arith, tests) in
          (
            λ o h t. only_exits o ((all-Has (among exits) m).0 inside o (kept os o h t)),
            λ h.
                let n = Has-among m normal (kept os normal h refl) in
                (among_of os escape (ground (arith, tests, n))),
          ),
      λ (only, followed). from (
          joint os
            ((all-Has (among exits) m).1 λ o h.
              let (p, t) = (Has-meaningful os o).0 h in
              elim (only o p t) [ inl e ↦ rw e refl | inr e ↦ rw e refl ])
            (λ n. Has-among m escape (kept os escape (followed (among_of os normal n)) refl))),
    )
  where
    Has-meaningful :
        (os : List TransactionPathOutcome) (o : TransactionPathOutcome)
        → Has o (meaningful_of os) ↔ (Has o os × (is_terminal o ≡ true))
    Has-meaningful os o =
        let (to, from) = Has-collect is_terminal (λ x. x) o os in
        (
          λ h.
              let (x, p, t, e) = to h in
              (subst (λ y. Has y os) e p, subst (λ y. is_terminal y ≡ true) e t),
          λ (p, t). from (o, p, t, refl),
        )

    kept :
        (os : List TransactionPathOutcome) (o : TransactionPathOutcome)
        → Has o os
        → is_terminal o ≡ true
        → Has o (meaningful_of os)
    kept os o h t = (Has-meaningful os o).1 (h, t)

    among_of :
        (os : List TransactionPathOutcome) (o : TransactionPathOutcome)
        → among (meaningful_of os) o ≡ true
        → Has o os
    among_of os o e = ((Has-meaningful os o).0 (among-Has (meaningful_of os) o e)).0

    joint :
        (os : List TransactionPathOutcome)
        → within (meaningful_of os) exits ≡ true
        → (normal_in (meaningful_of os) ≡ true → escape_in (meaningful_of os) ≡ true)
        → (within (meaningful_of os) exits
            && (not (normal_in (meaningful_of os)) || escape_in (meaningful_of os)))
          ≡ true
    joint os w f = elim (Bool-cases (normal_in (meaningful_of os))) [
      | inl t ↦ let g = f t in ground (arith, w, t, g)
      | inr n ↦ ground (arith, w, n)
    ]
