-- ===== src/Analysis/Survived.antt =====
-- When the classification of outcomes says that an effect is committed.
use Prim.Native.String.{String}
use atlas_db_agent.Prelude.{
  ◌≡◌, refl, sym, ap, ◌∙◌, subst, ◌↔◌, inl, inr, Bool, true, false, ◌&&◌, List, [], ◌∷◌, map, Has,
  str_eq, eq_iff, arith, collect, nonempty, any, all, Bool-cases, if◌then◌else◌,
}
use atlas_db_agent.Prelude.Texts.{str_le}
use atlas_db_agent.Prelude.Members.{Has-sort, Has-collect, Has-map, all-Has, any-Has}
use atlas_db_agent.Analysis.Records.{
  TransactionPathOutcome, outcome_value, TransactionSurvivalClassification, EffectObservability,
}
use atlas_db_agent.Analysis.Survival.{
  among, within, is_terminal, meaningful_of, classify, observability_of,
}
use atlas_db_agent.Analysis.Transaction.{surveyed, distinct_outcomes}

-- The outcomes that keep the effect.
abbrev pub commits : TransactionPathOutcome → Bool
commits TransactionPathOutcome.explicit_commit = true
commits TransactionPathOutcome.commit_on_return = true
commits _ = false

meaningful-nil :
    (xs : List TransactionPathOutcome) → any is_terminal xs ≡ false → meaningful_of xs ≡ []
unfolding collect any
meaningful-nil [] e = refl
meaningful-nil (x ∷ xs) e = ground (arith, meaningful-nil xs)

-- Outcomes none of which is a terminal path are classified CALLER_CONTROLLED_OR_EXCEPTIONAL, not
-- UNRESOLVED.
classify-no_terminal :
    (os : List TransactionPathOutcome)
    → any is_terminal os ≡ false
    → classify os ≡ TransactionSurvivalClassification.caller_controlled_or_exceptional
unfolding classify any all
classify-no_terminal os e = rw (meaningful-nil os e) refl

pub committed-classification :
    (c : TransactionSurvivalClassification)
    → observability_of c ≡ EffectObservability.committed_effect
    → c ≡ TransactionSurvivalClassification.must_commit
committed-classification TransactionSurvivalClassification.must_commit e = refl
committed-classification _ e = absurd (ground arith)

within-commits :
    (o : TransactionPathOutcome)
    → among
        (TransactionPathOutcome.explicit_commit ∷ TransactionPathOutcome.commit_on_return ∷ [])
        o
      ≡ commits o
unfolding any
within-commits TransactionPathOutcome.explicit_commit = refl
within-commits TransactionPathOutcome.commit_on_return = refl
within-commits TransactionPathOutcome.explicit_rollback = refl
within-commits TransactionPathOutcome.normal_exit_caller_controlled = refl
within-commits TransactionPathOutcome.caller_contract_commit = refl
within-commits TransactionPathOutcome.caller_contract_rollback = refl
within-commits TransactionPathOutcome.exceptional_escape = refl
within-commits TransactionPathOutcome.no_terminal_path = refl

classify-must_commit :
    (os : List TransactionPathOutcome)
    → (classify os ≡ TransactionSurvivalClassification.must_commit) ↔ (
        (nonempty (meaningful_of os)
          && within (meaningful_of os) (
              TransactionPathOutcome.explicit_commit ∷ TransactionPathOutcome.commit_on_return
              ∷ []))
        ≡ true)
unfolding classify
classify-must_commit os =
    elim (Bool-cases (
      nonempty (meaningful_of os)
      && within (meaningful_of os) (
          TransactionPathOutcome.explicit_commit ∷ TransactionPathOutcome.commit_on_return ∷ []))) [
            | inl t ↦ rw t (λ _. refl, λ _. refl)
            | inr f ↦ rw f (λ e. absurd (ground (arith, e)), λ e. absurd (ground (arith, e)))
          ]

-- A value has one outcome.
decode : String → TransactionPathOutcome
decode v =
    if str_eq v "EXPLICIT_COMMIT"
    then TransactionPathOutcome.explicit_commit
    else if str_eq v "EXPLICIT_ROLLBACK"
    then TransactionPathOutcome.explicit_rollback
    else if str_eq v "NORMAL_EXIT_CALLER_CONTROLLED"
    then TransactionPathOutcome.normal_exit_caller_controlled
    else if str_eq v "CALLER_CONTRACT_COMMIT"
    then TransactionPathOutcome.caller_contract_commit
    else if str_eq v "CALLER_CONTRACT_ROLLBACK"
    then TransactionPathOutcome.caller_contract_rollback
    else if str_eq v "COMMIT_ON_RETURN"
    then TransactionPathOutcome.commit_on_return
    else if str_eq v "EXCEPTIONAL_ESCAPE"
    then TransactionPathOutcome.exceptional_escape
    else TransactionPathOutcome.no_terminal_path

decode-value : (o : TransactionPathOutcome) → decode (outcome_value o) ≡ o
unfolding decode
decode-value TransactionPathOutcome.explicit_commit = refl
decode-value TransactionPathOutcome.commit_on_return = refl
decode-value TransactionPathOutcome.explicit_rollback = refl
decode-value TransactionPathOutcome.normal_exit_caller_controlled = refl
decode-value TransactionPathOutcome.caller_contract_commit = refl
decode-value TransactionPathOutcome.caller_contract_rollback = refl
decode-value TransactionPathOutcome.exceptional_escape = refl
decode-value TransactionPathOutcome.no_terminal_path = refl

outcome_value_injective :
    (a b : TransactionPathOutcome) → str_eq (outcome_value a) (outcome_value b) ≡ true → a ≡ b
outcome_value_injective a b e =
    sym (decode-value a)
    ∙ ap decode ((eq_iff (outcome_value a) (outcome_value b)).0 e)
    ∙ decode-value b

pub among-Has :
    (os : List TransactionPathOutcome) (o : TransactionPathOutcome) → among os o ≡ true → Has o os
among-Has os o e =
    let (x, h, q) = (any-Has (λ x. str_eq (outcome_value x) (outcome_value o)) os).0 e in
    subst (λ y. Has y os) (outcome_value_injective x o q) h

Has-distinct_outcomes :
    (o : TransactionPathOutcome) (os : List TransactionPathOutcome)
    → Has o (distinct_outcomes os) ↔ Has o os
unfolding distinct_outcomes
Has-distinct_outcomes o [] = (λ h. h, λ h. h)
Has-distinct_outcomes o (x ∷ xs) =
    let (to, from) = Has-distinct_outcomes o xs in
    elim (Bool-cases (among xs x)) [
      | inl t ↦ rw t (
        λ h. inr (to h),
        elim [ inl e ↦ from (subst (λ y. Has y xs) e (among-Has xs x t)) | inr h ↦ from h ],
      )
      | inr f ↦ rw f (
        elim [ inl e ↦ inl e | inr h ↦ inr (to h) ],
        elim [ inl e ↦ inl e | inr h ↦ inr (from h) ],
      )
    ]

abbrev Found : Type 0
Found = List (TransactionPathOutcome × String)

Has-outcomes :
    (o : TransactionPathOutcome) (f : TransactionPathOutcome × String) (found : Found)
    → Has o (surveyed (f ∷ found)).outcomes
      ↔ ((p : TransactionPathOutcome × String) × Has p (f ∷ found) × (p.0 ≡ o))
Has-outcomes o f found =
    let firsts = map (λ (p : TransactionPathOutcome × String). p.0) (f ∷ found) in
    let (unsort, resort) =
      Has-sort (λ a b. str_le (outcome_value a) (outcome_value b)) o (distinct_outcomes firsts) in
    let (some_of, one_of) = Has-distinct_outcomes o firsts in
    let (to, from) = Has-map (λ (p : TransactionPathOutcome × String). p.0) o (f ∷ found) in
    (λ h. to (some_of (unsort h)), λ x. resort (one_of (from x)))

Has-nonempty : {A : Type 0} (x : A) (xs : List A) → Has x xs → nonempty xs ≡ true
Has-nonempty x [] h = absurd h
Has-nonempty x (y ∷ ys) h = refl

no_path : any is_terminal (TransactionPathOutcome.no_terminal_path ∷ []) ≡ false
unfolding any
no_path = refl

pub surveyed-must_commit :
    (found : Found)
    → ((p : TransactionPathOutcome × String) → Has p found → is_terminal p.0 ≡ true)
    → (classify (surveyed found).outcomes ≡ TransactionSurvivalClassification.must_commit) ↔ (
        ((p : TransactionPathOutcome × String) × Has p found)
        × ((p : TransactionPathOutcome × String) → Has p found → commits p.0 ≡ true))
surveyed-must_commit [] terminal = (
  λ e. absurd (
      ground
        (arith, e, classify-no_terminal (TransactionPathOutcome.no_terminal_path ∷ []) no_path)),
  λ ((p, h), _). absurd h,
)
surveyed-must_commit (f ∷ found) terminal =
    let outcomes = (surveyed (f ∷ found)).outcomes in
    let (to, from) = classify-must_commit outcomes in
    (
      λ e. (
        (f, inl refl),
        λ p h.
            let kept = (all-Has (among saving) (meaningful_of outcomes)).0 (both (to e)).1 in
            sym (within-commits p.0)
            ∙ kept p.0 (
                meaningful outcomes p.0 ((Has-outcomes p.0 f found).1 (p, h, refl)) (terminal p h)),
      ),
      λ (_, only).
          let all_kept : (o : TransactionPathOutcome)
              → Has o (meaningful_of outcomes)
              → among saving o ≡ true =
            λ o h.
              let (x, m, t, q) = (Has-collect is_terminal (λ y. y) o outcomes).0 h in
              let (p, found_p, r) = (Has-outcomes x f found).0 m in
              within-commits o ∙ subst (λ y. commits y ≡ true) (r ∙ q) (only p found_p) in
          let some_kept = Has-nonempty f.0 (meaningful_of outcomes) (
            meaningful outcomes f.0 ((Has-outcomes f.0 f found).1 (f, inl refl, refl))
              (terminal f (inl refl))) in
          from (joint some_kept ((all-Has (among saving) (meaningful_of outcomes)).1 all_kept)),
    )
  where
    saving : List TransactionPathOutcome
    saving = TransactionPathOutcome.explicit_commit ∷ TransactionPathOutcome.commit_on_return ∷ []

    both : {a b : Bool} → (a && b) ≡ true → (a ≡ true) × (b ≡ true)
    both {a} {b} e = ground (arith, e)

    joint : {a b : Bool} → a ≡ true → b ≡ true → (a && b) ≡ true
    joint {a} {b} e g = ground (arith, e, g)

    meaningful :
        (os : List TransactionPathOutcome) (o : TransactionPathOutcome)
        → Has o os
        → is_terminal o ≡ true
        → Has o (meaningful_of os)
    meaningful os o h t = (Has-collect is_terminal (λ y. y) o os).1 (o, h, t, refl)
