-- ===== src/Analysis/Nested.antt =====
-- The walk through the regions of a procedure ends and finds the loops around each node.
use atlas_db_agent.Prelude.{
  ◌↔◌, ℕ, zero, suc, ◌<◌, ◌≡◌, refl, inl, inr, String, Option, some, List, [], ◌∷◌, ◌++◌, Has,
  arith, length,
}
use atlas_db_agent.Analysis.Records.{AstNode, ProcedureAst}
use atlas_db_agent.Analysis.Boundaries.{node_by_id}
use atlas_db_agent.Analysis.Modality.{
  visit, for_each, children_of, around, loop_ancestors, ancestors,
}
use atlas_db_agent.Analysis.Depth.{rank_of, length-rank_of, rank_of-less}
use atlas_db_agent.Analysis.Listed.{ancestors-Listed}
use atlas_db_agent.Analysis.Enclosed.{Encloses, loop_ancestors-Listed}

module _ (ast : ProcedureAst) (depth : String → ℕ) where
  -- Each reference names a node, and the children of a node are less deep than it is.
  pub record IsNested : Type 0 where
    pub rooted :
        (ref : String)
        → Has ref ast.body_node_refs
        → (n : AstNode) × (node_by_id ref ast.nodes ≡ some n)
    pub named :
        (ref child : String) (n : AstNode)
        → node_by_id ref ast.nodes ≡ some n
        → Has child (children_of n)
        → (m : AstNode) × (node_by_id child ast.nodes ≡ some m)
    pub descends :
        (ref child : String) (n : AstNode)
        → node_by_id ref ast.nodes ≡ some n
        → Has child (children_of n)
        → depth child < depth ref

  for_each-some :
      (f : String → Option (List (String × List String))) (refs : List String)
      → ((ref : String) → Has ref refs → (out : List (String × List String)) × (f ref ≡ some out))
      → (out : List (String × List String)) × (for_each f refs ≡ some out)
  for_each-some f [] h = ([], refl)
  for_each-some f (ref ∷ refs) h =
      let (a, p) = h ref (inl refl) in
      let (b, q) = for_each-some f refs (λ r m. h r (inr m)) in (a ++ b, rw (p, q) refl)

  visit-some :
      (nested : IsNested) (fuel : ℕ) (ref : String) (loops : List String) (n : AstNode)
      → node_by_id ref ast.nodes ≡ some n
      → rank_of depth ast.nodes ref < fuel
      → (out : List (String × List String)) × (visit ast fuel ref loops ≡ some out)
  unfolding visit
  visit-some nested zero ref loops n e h = absurd (omega arith)
  visit-some nested (suc fuel) ref loops n e h =
      let (out, p) =
        for_each-some (λ child. visit ast fuel child (around n loops)) (children_of n)
          (λ child m.
            let (k, named) = nested.named ref child n e m in
            let less =
              rank_of-less depth ast.nodes ref child k named (nested.descends ref child n e m) in
            visit-some nested fuel child (around n loops) k named (omega (arith, less, h))) in
      (((ref, around n loops) ∷ []) ++ out, rw (e, p, visit) refl)

  loop_ancestors-some :
      IsNested → (out : List (String × List String)) × (loop_ancestors ast ≡ some out)
  unfolding loop_ancestors
  loop_ancestors-some nested =
      for_each-some (λ ref. visit ast (suc (length ast.nodes)) ref []) ast.body_node_refs
        (λ ref m.
          let (n, e) = nested.rooted ref m in
          let bound = length-rank_of depth ast.nodes ref in
          visit-some nested (suc (length ast.nodes)) ref [] n e (omega (arith, bound)))

  -- In a procedure whose references name nodes and whose nesting descends, the walk through its regions
  -- ends without an error, and the loops it gives for a node are exactly the loop regions that the body
  -- leads to and that lead to the node, the node itself included.
  pub loop_ancestors-Encloses :
      IsNested
      → (out : List (String × List String)) × (loop_ancestors ast ≡ some out)
        × ((ref l : String) → Has l (ancestors ref out) ↔ Encloses ast ref l)
  loop_ancestors-Encloses nested =
      let (out, e) = loop_ancestors-some nested in
      (
        out,
        e,
        λ ref l.
            let (to, from) = ancestors-Listed ref l out in
            let (onto, back) = loop_ancestors-Listed ast out e ref l in
            (λ h. onto (to h), λ x. from (back x)),
      )
