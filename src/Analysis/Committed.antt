-- ===== src/Analysis/Committed.antt =====
-- When the analysis says that an effect is committed.
use Prim.Native.String.{String}
use atlas_db_agent.Prelude.{
  ◌≡◌, refl, sym, ap, subst, ◌↔◌, inl, inr, Bool, true, Option, none, some, Has, str_eq, arith,
  Bool-cases, Option-cases,
}
use atlas_db_agent.Analysis.Records.{
  NodeKind, ProcedureAst, ControlFlowGraph, TransactionPathOutcome, CommitOnReturn,
  CallerTransactionContract, EffectCandidate, EffectObservability,
}
use atlas_db_agent.Analysis.Boundaries.{
  State, boundary, normal_outcome, exceptional_outcome, statement_boundary, kind_boundary,
  ast_ref_of, node_by_id,
}
use atlas_db_agent.Analysis.Survival.{is_terminal, observability_of}
use atlas_db_agent.Analysis.Transaction.{
  Texts, Surveyed, surveyed, survey, analysis_of, cfg_of, commit_on_return_of,
}
use atlas_db_agent.Analysis.Paths.{Walk, first_boundaries-Walk}
use atlas_db_agent.Analysis.Survived.{commits, committed-classification, surveyed-must_commit}

module _ (t : Texts) (ast : ProcedureAst) (cfg : ControlFlowGraph)
    (contract : Option CallerTransactionContract) where
  abbrev on_return : CommitOnReturn
  on_return = commit_on_return_of t ast.commit_on_return

  kind_boundary-terminal :
      (k : NodeKind) (o : TransactionPathOutcome) → kind_boundary k ≡ some o → is_terminal o ≡ true
  kind_boundary-terminal NodeKind.commit o e =
      let p : TransactionPathOutcome.explicit_commit ≡ o = cc e in rw (sym p) refl
  kind_boundary-terminal NodeKind.rollback o e =
      let p : TransactionPathOutcome.explicit_rollback ≡ o = cc e in rw (sym p) refl
  kind_boundary-terminal _ o e = absurd (ground (arith, e))

  normal_outcome-terminal :
      (c : CommitOnReturn) (k : Option CallerTransactionContract)
      → is_terminal (normal_outcome c k) ≡ true
  normal_outcome-terminal CommitOnReturn.commits k = refl
  normal_outcome-terminal CommitOnReturn.keeps none = refl
  normal_outcome-terminal CommitOnReturn.keeps (some c) = refl
  normal_outcome-terminal CommitOnReturn.unknown none = refl
  normal_outcome-terminal CommitOnReturn.unknown (some c) = refl

  exceptional_outcome-terminal :
      (k : Option CallerTransactionContract) → is_terminal (exceptional_outcome k) ≡ true
  exceptional_outcome-terminal none = refl
  exceptional_outcome-terminal (some c) = refl

  statement_boundary-terminal :
      (at : String) (p : TransactionPathOutcome × String)
      → statement_boundary cfg ast.nodes on_return contract at ≡ some p
      → is_terminal p.0 ≡ true
  unfolding statement_boundary
  statement_boundary-terminal at p e = elim (Option-cases (ast_ref_of at cfg.nodes)) [
    | inl n ↦ absurd (ground (arith, rw (n, statement_boundary) at e))
    | inr (ref, r) ↦ elim (Option-cases (node_by_id ref ast.nodes)) [
      | inl n ↦ absurd (ground (arith, rw (r, n, statement_boundary) at e))
      | inr (node, q) ↦ elim (Option-cases (kind_boundary node.kind)) [
        | inl n ↦ absurd (ground (arith, rw (r, q, n, statement_boundary) at e))
        | inr (o, b) ↦
            let same : some (o, ref) ≡ some p = rw (r, q, b, statement_boundary) at e in
            let out : o ≡ p.0 = ap (λ x. elim x [ none ↦ o | some y ↦ y.0 ]) same in
            subst (λ x. is_terminal x ≡ true) out (kind_boundary-terminal node.kind o b)
      ]
    ]
  ]

  boundary-terminal :
      (s : State) (p : TransactionPathOutcome × String)
      → boundary cfg ast.nodes on_return contract s ≡ some p
      → is_terminal p.0 ≡ true
  unfolding boundary
  boundary-terminal (at, first) p e = elim (Bool-cases (str_eq at cfg.normal_exit_ref)) [
    | inl x ↦
        held (normal_outcome on_return contract) at (normal_outcome-terminal on_return contract)
          (rw (x, boundary) at e)
    | inr x ↦ elim (Bool-cases (str_eq at cfg.exceptional_exit_ref)) [
      | inl y ↦
          held (exceptional_outcome contract) at (exceptional_outcome-terminal contract)
            (rw (x, y, boundary) at e)
      | inr y ↦ elim (Bool-cases first) [
        | inl z ↦ absurd (ground (arith, rw (x, y, z, boundary) at e))
        | inr z ↦ statement_boundary-terminal at p (rw (x, y, z, boundary) at e)
      ]
    ]
  ]
    where
      held :
          (o : TransactionPathOutcome) (ref : String)
          → is_terminal o ≡ true
          → some (o, ref) ≡ some p
          → is_terminal p.0 ≡ true
      held o ref h same =
          subst (λ x. is_terminal x ≡ true) (ap (λ x. elim x [ none ↦ o | some y ↦ y.0 ]) same) h

  -- The survey of an effect that stands in the graph always ends. The effect is then called committed
  -- exactly when some path from it reaches a boundary, and every boundary that a path reaches keeps
  -- it: an explicit commit, or the commit on return.
  pub survey-committed :
      (effect : EffectCandidate) (source : String)
      → cfg_of t ast cfg contract effect.source_node_ref ≡ some source
      → (s : Surveyed) × (survey t ast cfg contract effect ≡ some s)
        × ((observability_of (analysis_of t ast cfg contract effect s).classification
              ≡ EffectObservability.committed_effect)
            ↔ (((at : String) × (first : Bool) × (o : TransactionPathOutcome × String) × Walk cfg
                    ast.nodes on_return contract source at first
                  × (boundary cfg ast.nodes on_return contract (at, first) ≡ some o))
                × ((at : String) (first : Bool) (o : TransactionPathOutcome × String)
                    → Walk cfg ast.nodes on_return contract source at first
                    → boundary cfg ast.nodes on_return contract (at, first) ≡ some o
                    → commits o.0 ≡ true)))
  unfolding survey analysis_of
  survey-committed effect source placed =
      let (out, ends, stops) = first_boundaries-Walk cfg ast.nodes on_return contract source in
      let terminal : (p : TransactionPathOutcome × String)
          → Has p out.found
          → is_terminal p.0 ≡ true =
        λ p h. let (at, first, _, b) = (stops p).0 h in boundary-terminal (at, first) p b in
      let (to, from) = surveyed-must_commit out.found terminal in
      (
        surveyed out.found,
        rw (placed, ends, survey) refl,
        (
          λ e.
              let ((p, h), only) = to (committed-classification _ e) in
              let (at, first, path, b) = (stops p).0 h in
              (
                (at, first, p, path, b),
                λ at first o path b. only o ((stops o).1 (at, first, path, b)),
              ),
          λ ((at, first, p, path, b), only). ap observability_of (
              from (
                (p, (stops p).1 (at, first, path, b)),
                λ o h. let (x, y, path, b) = (stops o).0 h in only x y o path b,
              )),
        ),
      )
