-- ===== src/Analysis/Survival.antt =====
-- Whether an effect survives its transaction: `TransactionSurvivalAnalyzer` of
-- analysis/transaction.py.
use atlas_db_agent.Prelude.{
  Bool, true, false, ◌&&◌, ◌||◌, List, [], ◌∷◌, str_eq, if◌then◌else◌, collect, any, all, nonempty,
}
use atlas_db_agent.Analysis.Records.{
  EffectObservability, TransactionPathOutcome, outcome_value, TransactionSurvivalClassification,
}

-- `outcome in outcomes`, and `outcomes <= allowed`.
abbrev pub among : List TransactionPathOutcome → TransactionPathOutcome → Bool
among outcomes o = any (λ x. str_eq (outcome_value x) (outcome_value o)) outcomes

abbrev pub within : List TransactionPathOutcome → List TransactionPathOutcome → Bool
within outcomes allowed = all (among allowed) outcomes

abbrev pub is_terminal : TransactionPathOutcome → Bool
is_terminal TransactionPathOutcome.no_terminal_path = false
is_terminal _ = true

abbrev pub meaningful_of : List TransactionPathOutcome → List TransactionPathOutcome
meaningful_of outcomes = collect is_terminal (λ o. o) outcomes

-- `_classify`
unfoldable pub classify : List TransactionPathOutcome → TransactionSurvivalClassification
classify outcomes =
    let meaningful = meaningful_of outcomes in
    if nonempty meaningful
      && within meaningful
          (TransactionPathOutcome.explicit_commit ∷ TransactionPathOutcome.commit_on_return ∷ [])
    then TransactionSurvivalClassification.must_commit
    else if among meaningful TransactionPathOutcome.explicit_rollback
        && within meaningful (TransactionPathOutcome.explicit_rollback ∷ [])
    then TransactionSurvivalClassification.must_rollback
    else if among meaningful TransactionPathOutcome.caller_contract_commit
        && within meaningful (
            TransactionPathOutcome.caller_contract_commit
            ∷ TransactionPathOutcome.caller_contract_rollback ∷ [])
    then TransactionSurvivalClassification.caller_contract_commit
    else if among meaningful TransactionPathOutcome.normal_exit_caller_controlled
        && within meaningful (TransactionPathOutcome.normal_exit_caller_controlled ∷ [])
    then TransactionSurvivalClassification.caller_controlled
    else if within meaningful (
          TransactionPathOutcome.explicit_commit ∷ TransactionPathOutcome.commit_on_return
          ∷ TransactionPathOutcome.explicit_rollback ∷ [])
        && among meaningful TransactionPathOutcome.explicit_rollback
    then TransactionSurvivalClassification.may_commit_or_rollback
    else if within meaningful (
          TransactionPathOutcome.explicit_commit ∷ TransactionPathOutcome.commit_on_return
          ∷ TransactionPathOutcome.normal_exit_caller_controlled ∷ [])
        && among meaningful TransactionPathOutcome.normal_exit_caller_controlled
    then TransactionSurvivalClassification.may_commit_or_caller_controlled
    else if within meaningful (
        TransactionPathOutcome.normal_exit_caller_controlled
        ∷ TransactionPathOutcome.exceptional_escape ∷ [])
    then TransactionSurvivalClassification.caller_controlled_or_exceptional
    else if among meaningful TransactionPathOutcome.explicit_commit
        || among meaningful TransactionPathOutcome.explicit_rollback
        || among meaningful TransactionPathOutcome.normal_exit_caller_controlled
    then TransactionSurvivalClassification.may_commit_rollback_or_caller_controlled
    else TransactionSurvivalClassification.unresolved

-- `_observability`
abbrev pub observability_of : TransactionSurvivalClassification → EffectObservability
observability_of TransactionSurvivalClassification.must_commit =
    EffectObservability.committed_effect
observability_of TransactionSurvivalClassification.caller_contract_commit =
    EffectObservability.conditionally_committed_effect
observability_of TransactionSurvivalClassification.must_rollback =
    EffectObservability.rolled_back_effect
observability_of _ = EffectObservability.transaction_survival_unresolved
