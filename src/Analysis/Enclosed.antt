-- ===== src/Analysis/Enclosed.antt =====
-- Which loops the walk through the regions of a procedure finds around a node.
use atlas_db_agent.Prelude.{
  ℕ, zero, suc, ◌≡◌, refl, sym, ap, ◌∙◌, subst, ◌⊎◌, ◌↔◌, inl, inr, String, some, List, [], ◌∷◌,
  ◌++◌, Has, arith, length, Option-cases,
}
use atlas_db_agent.Analysis.Records.{NodeKind, AstNode, ProcedureAst}
use atlas_db_agent.Analysis.Boundaries.{node_by_id}
use atlas_db_agent.Analysis.Modality.{visit, for_each, children_of, around, loop_ancestors}
use atlas_db_agent.Analysis.Listed.{
  Entries, Listed, Has-append, some_injective, for_each-Has, for_each-part,
}

module _ (ast : ProcedureAst) where
  -- The node is reached from another through children.
  pub data Below (target : String) : String → Type 0 where
    here : Below target target
    through_child :
        (ref child : String) (n : AstNode)
        → node_by_id ref ast.nodes ≡ some n
        → Has child (children_of n)
        → Below target child
        → Below target ref

  pub record IsLoop (ref : String) (id : String) : Type 0 where
    pub node : AstNode
    pub found : node_by_id ref ast.nodes ≡ some node
    pub is_loop : node.kind ≡ NodeKind.loop_region
    pub named : node.node_id ≡ id

  Has-around :
      (n : AstNode) (loops : List String) (l : String)
      → Has l (around n loops) ↔ (Has l loops ⊎ ((n.kind ≡ NodeKind.loop_region) × (n.node_id ≡ l)))
  Has-around n loops l = kind_cases n.kind
    where
      kind_cases :
          (k : NodeKind)
          → Has l (elim k as (λ _. List String) [
            | NodeKind.loop_region ↦ loops ++ n.node_id ∷ []
            | _ ↦ loops
          ])
            ↔ (Has l loops ⊎ ((k ≡ NodeKind.loop_region) × (n.node_id ≡ l)))
      kind_cases NodeKind.loop_region =
          let (split, join) = Has-append l loops (n.node_id ∷ []) in
          (
            λ h. elim (split h) [
              | inl k ↦ inl k
              | inr k ↦ elim k [ inl e ↦ inr (refl, e) | inr none_left ↦ absurd none_left ]
            ],
            elim [ inl k ↦ join (inl k) | inr (_, e) ↦ join (inr (inl e)) ],
          )
      kind_cases _ = (inl, elim [ inl k ↦ k | inr (e, _) ↦ absurd (ground (arith, e)) ])

  -- A loop that is there before the walk starts at `start`, or one that the walk enters.
  abbrev Collected : List String → String → String → String → Type 0
  Collected loops start ref l =
      (Has l loops × Below ref start) ⊎ ((p : String) × Below p start × IsLoop p l × Below ref p)

  Below-cases :
      (target ref : String) (b : Below target ref)
      → (target ≡ ref)
        ⊎ ((child : String) × (n : AstNode) × (node_by_id ref ast.nodes ≡ some n)
            × Has child (children_of n)
            × Below target child)
  Below-cases target ref here = inl refl
  Below-cases target ref (through_child r child n e m b) = inr (child, n, e, m, b)

  module _ (start : String) (n : AstNode) (known : node_by_id start ast.nodes ≡ some n)
      (loops : List String) (ref l : String) where
    -- A node below a child is below its parent, and the parent may be a loop.
    from_child :
        (child : String)
        → Has child (children_of n)
        → Collected (around n loops) child ref l
        → Collected loops start ref l
    from_child child m (inl (k, b)) = elim ((Has-around n loops l).0 k) [
      | inl old ↦ inl (old, through_child start child n known m b)
      | inr (kind, id) ↦ inr (
        start,
        here,
        record { node = n; found = known; is_loop = kind; named = id },
        through_child start child n known m b,
      )
    ]
    from_child child m (inr (p, bp, loop, b)) =
        inr (p, through_child start child n known m bp, loop, b)

    -- What stands at the node itself.
    at_start :
        (found : List String)
        → start ≡ ref
        → around n loops ≡ found
        → Has l found
        → Collected loops start ref l
    at_start found same e m =
        let below = subst (λ r. Below r start) same here in
        elim ((Has-around n loops l).0 (subst (Has l) (sym e) m)) [
          | inl old ↦ inl (old, below)
          | inr (kind, id) ↦
              inr
                (start, here, record { node = n; found = known; is_loop = kind; named = id }, below)
        ]

    -- From the node, what is collected stands there or comes through a child.
    abbrev Split : Type 0
    Split =
        ((start ≡ ref) × Has l (around n loops))
        ⊎ ((child : String) × Has child (children_of n) × Collected (around n loops) child ref l)

    child_of :
        (m : AstNode) (child : String)
        → node_by_id start ast.nodes ≡ some m
        → Has child (children_of m)
        → Has child (children_of n)
    child_of m child e h =
        subst (λ (x : AstNode). Has child (children_of x)) (some_injective (sym e ∙ known)) h

    through : Below ref start → Has l (around n loops) → Split
    through b k = elim (Below-cases ref start b) [
      | inl same ↦ inl (sym same, k)
      | inr (child, m, e, h, below) ↦ inr (child, child_of m child e h, inl (k, below))
    ]

    entered : (p : String) → p ≡ start → IsLoop p l → Has l (around n loops)
    entered p same loop =
        let node_same : loop.node ≡ n =
          some_injective (sym loop.found ∙ ap (λ r. node_by_id r ast.nodes) same ∙ known) in
        (Has-around n loops l).1 (
          inr (
            ap (λ (x : AstNode). x.kind) (sym node_same) ∙ loop.is_loop,
            ap (λ (x : AstNode). x.node_id) (sym node_same) ∙ loop.named,
          ))

    split_collected : Collected loops start ref l → Split
    split_collected (inl (k, b)) = through b ((Has-around n loops l).1 (inl k))
    split_collected (inr (p, bp, loop, b)) = elim (Below-cases p start bp) [
      | inl same ↦ through (subst (Below ref) same b) (entered p same loop)
      | inr (child, m, e, h, below) ↦ inr (child, child_of m child e h, inr (p, below, loop, b))
    ]

  -- The walk from a node lists with each node below it the loops that are given and those between.
  visit-Listed :
      (fuel : ℕ) (start : String) (loops : List String) (out : Entries)
      → visit ast fuel start loops ≡ some out
      → (ref l : String) → Listed out ref l ↔ Collected loops start ref l
  unfolding visit
  visit-Listed zero start loops out e ref l = absurd (ground (arith, e))
  visit-Listed (suc fuel) start loops out e ref l =
      elim (Option-cases (node_by_id start ast.nodes)) [
        | inl n ↦ absurd (ground (arith, rw (n, visit) at e))
        | inr (n, known) ↦
            let walk = λ (child : String). visit ast fuel child (around n loops) in
            elim (Option-cases (for_each walk (children_of n))) [
              | inl z ↦ absurd (ground (arith, rw (known, z, visit) at e))
              | inr (rest, walked) ↦
                  let same = some_injective (rw (known, walked, visit) at e) in
                  (
                    λ (found, h, m). elim (subst (Has (ref, found)) (sym same) h) [
                      | inl q ↦
                          at_start start n known loops ref l found (ap (λ x. x.0) q)
                            (ap (λ x. x.1) q) m
                      | inr k ↦
                          let (child, part, c, w, z) =
                            (for_each-Has walk (children_of n) rest walked (ref, found)).0 k in
                          from_child start n known loops ref l child c (
                            (visit-Listed fuel child (around n loops) part w ref l).0 (found, z, m))
                    ],
                    λ x. elim (split_collected start n known loops ref l x) [
                      | inl (q, m) ↦ (
                        around n loops,
                        subst (Has (ref, around n loops)) same
                            (inl (ap (λ r. (r, around n loops)) q)),
                        m,
                      )
                      | inr (child, c, y) ↦
                          let (part, w) = for_each-part walk (children_of n) rest walked child c in
                          let (found, z, m) =
                            (visit-Listed fuel child (around n loops) part w ref l).1 y in
                          (
                            found,
                            subst (Has (ref, found)) same (
                                inr (
                                  (for_each-Has walk (children_of n) rest walked (ref, found)).1
                                    (child, part, c, w, z))),
                            m,
                          )
                    ],
                  )
            ]
      ]

  -- A loop region that encloses a node, or is the node: the procedure's body leads to the loop, and the
  -- loop to the node.
  abbrev pub Encloses : String → String → Type 0
  Encloses ref l =
      (root : String) × (p : String) × Has root ast.body_node_refs
      × Below p root
      × IsLoop p l
      × Below ref p

  pub loop_ancestors-Listed :
      (out : Entries)
      → loop_ancestors ast ≡ some out
      → (ref l : String) → Listed out ref l ↔ Encloses ref l
  unfolding loop_ancestors
  loop_ancestors-Listed out e ref l =
      let walk = λ (r : String). visit ast (suc (length ast.nodes)) r [] in
      (
        λ (found, h, m).
            let (root, part, c, w, z) =
              (for_each-Has walk ast.body_node_refs out e (ref, found)).0 h in
            elim ((visit-Listed (suc (length ast.nodes)) root [] part w ref l).0 (found, z, m)) [
              | inl (k, b) ↦ absurd k
              | inr (p, bp, loop, b) ↦ (root, p, c, bp, loop, b)
            ],
        λ (root, p, c, bp, loop, b).
            let (part, w) = for_each-part walk ast.body_node_refs out e root c in
            let (found, z, m) =
              (visit-Listed (suc (length ast.nodes)) root [] part w ref l).1
                (inr (p, bp, loop, b)) in
            (
              found,
              (for_each-Has walk ast.body_node_refs out e (ref, found)).1 (root, part, c, w, z),
              m,
            ),
      )
