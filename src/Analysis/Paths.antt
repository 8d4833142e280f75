-- ===== src/Analysis/Paths.antt =====
-- The boundaries found are those of the paths through the control flow graph.
use atlas_db_agent.Prelude.{
  ℕ, suc, ◌+◌, ◌≤◌, ◌≡◌, refl, ap, subst, ◌↔◌, Bool, true, false, not, ◌&&◌, String, Option, none,
  some, List, [], ◌∷◌, ◌++◌, map, length, Has, str_eq, eq_iff, arith, collect, length-append,
}
use atlas_db_agent.Prelude.Explore.{Explored, Reach, here, moved}
use atlas_db_agent.Prelude.Explored.{explore-Reach, explore_ends, count, remaining}
use atlas_db_agent.Prelude.Members.{Has-sort, length-sort, Has-collect}
use atlas_db_agent.Analysis.Records.{
  AstNode, CfgEdge, ControlFlowGraph, is_handler_edge, TransactionPathOutcome, CommitOnReturn,
  CallerTransactionContract,
}
use atlas_db_agent.Analysis.Boundaries.{
  State, same_state, edge_le, edges_from, boundary, successors, first_boundaries,
}

same_state_iff : (a b : State) → (same_state a b ≡ true) ↔ (a ≡ b)
same_state_iff (a, true) (b, true) =
    ((λ e. ap (λ x. (x, true)) ((eq_iff a b).0 e)), λ e. (eq_iff a b).1 (ap (λ (x, _). x) e))
same_state_iff (a, false) (b, false) =
    ((λ e. ap (λ x. (x, false)) ((eq_iff a b).0 e)), λ e. (eq_iff a b).1 (ap (λ (x, _). x) e))
same_state_iff (a, true) (b, false) =
    (λ e. absurd (ground arith), λ e. absurd (cc (ap (λ (_, x). x) e)))
same_state_iff (a, false) (b, true) =
    (λ e. absurd (ground arith), λ e. absurd (cc (ap (λ (_, x). x) e)))

module _ (cfg : ControlFlowGraph) (nodes : List AstNode) (commit : CommitOnReturn)
    (contract : Option CallerTransactionContract) where
  -- A path from a statement along the edges, up to its first boundary. It does not start with the
  -- statement's own handler.
  pub data Walk (source : String) : String → Bool → Type 0 where
    start : Walk source source true
    follow :
        (at : String) (first : Bool) (e : CfgEdge)
        → Walk source at first
        → boundary cfg nodes commit contract (at, first) ≡ none
        → Has e cfg.edges
        → e.source_ref ≡ at
        → (first && is_handler_edge e.edge_kind) ≡ false
        → Walk source e.target_ref false

  Has-edges_from :
      (at : String) (e : CfgEdge)
      → Has e (edges_from at cfg.edges) ↔ (Has e cfg.edges × (e.source_ref ≡ at))
  unfolding edges_from
  Has-edges_from at e =
      let (unsort, resort) =
        Has-sort edge_le e (collect (λ (x : CfgEdge). str_eq x.source_ref at) (λ x. x) cfg.edges) in
      let (to, from) = Has-collect (λ (x : CfgEdge). str_eq x.source_ref at) (λ x. x) e cfg.edges in
      (
        λ h.
            let (x, m, t, q) = to (unsort h) in
            subst (λ y. Has y cfg.edges × (y.source_ref ≡ at)) q (m, (eq_iff x.source_ref at).0 t),
        λ (m, q). resort (from (e, m, (eq_iff e.source_ref at).1 q, refl)),
      )

  Has-successors :
      (at : String) (first : Bool) (t : State)
      → Has t (successors cfg nodes commit contract (at, first)) ↔ (
          (e : CfgEdge) × Has e cfg.edges
          × (e.source_ref ≡ at)
          × ((first && is_handler_edge e.edge_kind) ≡ false)
          × ((e.target_ref, false) ≡ t))
  unfolding successors
  Has-successors at first t =
      let keeps = λ (e : CfgEdge). not (first && is_handler_edge e.edge_kind) in
      let (to, from) = Has-collect keeps (λ e. (e.target_ref, false)) t (edges_from at cfg.edges) in
      (
        λ h.
            let (e, m, k, q) = to h in
            let (known, at_it) = (Has-edges_from at e).0 m in
            (e, known, at_it, ground (arith, k), q),
        λ (e, known, at_it, k, q).
            from (e, (Has-edges_from at e).1 (known, at_it), ground (arith, k), q),
      )

  Walk-Reach :
      (source : String) (s : State)
      → Reach same_state
          (boundary cfg nodes commit contract)
          (successors cfg nodes commit contract)
          (source, true)
          s
      → Walk source s.0 s.1
  Walk-Reach source _ here = start
  Walk-Reach source _ (moved s t r n h) =
      let (e, known, at_it, k, q) = (Has-successors s.0 s.1 t).0 h in
      subst (λ x. Walk source x.0 x.1) q (follow s.0 s.1 e (Walk-Reach source s r) n known at_it k)

  Reach-Walk :
      (source at : String) (first : Bool)
      → Walk source at first
      → Reach same_state
          (boundary cfg nodes commit contract)
          (successors cfg nodes commit contract)
          (source, true)
          (at, first)
  Reach-Walk source _ _ start = here
  Reach-Walk source _ _ (follow at first e p n known at_it k) =
      moved (at, first) (e.target_ref, false) (Reach-Walk source at first p) n
        ((Has-successors at first (e.target_ref, false)).1 (e, known, at_it, k, refl))

  -- Every edge twice, for the two states of its source.
  abbrev source_states : Bool → List CfgEdge → List State
  source_states b edges = map (λ e. (e.source_ref, b)) edges

  abbrev same_count : State → List State → ℕ
  same_count =
      count same_state same_state_iff (boundary cfg nodes commit contract)
        (successors cfg nodes commit contract)

  count-append :
      (s : State) (xs ys : List State) → same_count s (xs ++ ys) ≡ same_count s xs + same_count s ys
  unfolding count
  count-append s [] ys = omega arith
  count-append s (x ∷ xs) ys = ground (arith, count-append s xs ys)

  count-source_states :
      (at : String) (b : Bool) (edges : List CfgEdge)
      → same_count (at, b) (source_states b edges)
        ≡ length (collect (λ (x : CfgEdge). str_eq x.source_ref at) (λ x. x) edges)
  unfolding count collect
  count-source_states at b [] = refl
  count-source_states at true (e ∷ edges) =
      ground
        (arith, count-source_states at true edges, eq_iff at e.source_ref, eq_iff e.source_ref at)
  count-source_states at false (e ∷ edges) =
      ground
        (arith, count-source_states at false edges, eq_iff at e.source_ref, eq_iff e.source_ref at)

  length-collect :
      {A B : Type 0} (p : A → Bool) (f : A → B) (xs : List A) → length (collect p f xs) ≤ length xs
  unfolding collect
  length-collect p f [] = omega arith
  length-collect p f (x ∷ xs) = ground (arith, length-collect p f xs)

  length-edges_from :
      (at : String)
      → length (edges_from at cfg.edges)
        ≡ length (collect (λ (x : CfgEdge). str_eq x.source_ref at) (λ x. x) cfg.edges)
  unfolding edges_from
  length-edges_from at = length-sort edge_le _

  short :
      (at : String) (first : Bool)
      → length (successors cfg nodes commit contract (at, first)) ≤ length (edges_from at cfg.edges)
  unfolding successors
  short at first = length-collect _ _ (edges_from at cfg.edges)

  room :
      (s : State)
      → length (successors cfg nodes commit contract s)
        ≤ same_count s (source_states false cfg.edges ++ source_states true cfg.edges)
  room (at, true) = omega (
    arith,
    short at true,
    length-edges_from at,
    count-source_states at true cfg.edges,
    count-append (at, true) (source_states false cfg.edges) (source_states true cfg.edges),
  )
  room (at, false) = omega (
    arith,
    short at false,
    length-edges_from at,
    count-source_states at false cfg.edges,
    count-append (at, false) (source_states false cfg.edges) (source_states true cfg.edges),
  )

  remaining-le :
      (visited xs : List State)
      → remaining same_state same_state_iff
          (boundary cfg nodes commit contract)
          (successors cfg nodes commit contract)
          visited
          xs
        ≤ length xs
  unfolding remaining
  remaining-le visited [] = omega arith
  remaining-le visited (x ∷ xs) = ground (arith, remaining-le visited xs)

  length-source_states :
      (b : Bool) (edges : List CfgEdge) → length (source_states b edges) ≡ length edges
  length-source_states b [] = refl
  length-source_states b (e ∷ edges) = ap suc (length-source_states b edges)

  -- The search after a statement always ends, and it finds exactly the outcomes and the boundaries at
  -- which some path from the statement stops.
  pub first_boundaries-Walk :
      (source : String)
      → (out : Explored same_state
          (boundary cfg nodes commit contract)
          (successors cfg nodes commit contract))
        × (first_boundaries cfg nodes commit contract source ≡ some out)
        × ((o : TransactionPathOutcome × String)
            → Has o out.found ↔ (
                (at : String) × (first : Bool) × Walk source at first
                × (boundary cfg nodes commit contract (at, first) ≡ some o)))
  unfolding first_boundaries
  first_boundaries-Walk source =
      let all = source_states false cfg.edges ++ source_states true cfg.edges in
      let (out, ends) =
        explore_ends same_state same_state_iff (boundary cfg nodes commit contract)
          (successors cfg nodes commit contract) all room
          (suc (length cfg.edges + length cfg.edges)) ((source, true) ∷ [])
          (record { visited = []; found = [] })
          (omega (
            arith,
            remaining-le [] all,
            length-source_states false cfg.edges,
            length-source_states true cfg.edges,
            length-append (source_states false cfg.edges) (source_states true cfg.edges),
          )) in
      (
        out,
        ends,
        λ o.
            let (sound, full) =
              explore-Reach same_state same_state_iff (boundary cfg nodes commit contract)
                (successors cfg nodes commit contract) (source, true)
                (suc (length cfg.edges + length cfg.edges)) out o ends in
            (
              λ h. let (s, r, b) = sound h in (s.0, s.1, Walk-Reach source s r, b),
              λ (at, first, p, b). full ((at, first), Reach-Walk source at first p, b),
            ),
      )
