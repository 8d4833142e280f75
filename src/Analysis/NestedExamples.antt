-- ===== src/Analysis/NestedExamples.antt =====
-- An update inside a loop.
use atlas_db_agent.Prelude.{
  ℕ, ◌≡◌, refl, sym, subst, ◌⊎◌, ◌↔◌, inl, inr, ◌<◌, String, Option, none, some, List, [], ◌∷◌, Has,
  str_eq, eq_iff, arith, Bool-cases, if◌then◌else◌,
}
use atlas_db_agent.Prelude.Texts.{last_with}
use atlas_db_agent.Analysis.Records.{NodeKind, AstNode, ProcedureAst}
use atlas_db_agent.Analysis.Boundaries.{node_by_id}
use atlas_db_agent.Analysis.Modality.{loop_ancestors, ancestors, children_of}
use atlas_db_agent.Analysis.Nested.{IsNested, loop_ancestors-Encloses}
use atlas_db_agent.Analysis.Enclosed.{Encloses}

abbrev node : String → NodeKind → Option (List String) → AstNode
node id kind body = record {
  node_id = id;
  kind = kind;
  source_range = record {
    start_line = 1;
    start_column = 1;
    start_offset = 0;
    end_line = 1;
    end_column = 9;
    end_offset = 8;
  };
  if_arms = none;
  handler_body = none;
  loop_body = body;
  child_refs = [];
  assignment_binding = none;
  select_into_targets = none;
  execute_targets = none;
  fetch_targets = none;
}

abbrev inner : AstNode
inner = node "update" NodeKind.dml none

abbrev outer : AstNode
outer = node "loop" NodeKind.loop_region (some ("update" ∷ []))

abbrev ast : ProcedureAst
ast = record {
  node_id = "procedure";
  commit_on_return = none;
  body_node_refs = "loop" ∷ [];
  nodes = outer ∷ inner ∷ [];
  declared_symbol_types = [];
}

abbrev depth : String → ℕ
depth ref = if str_eq ref "loop" then 1 else 0

looked_up :
    (ref : String) (n : AstNode)
    → node_by_id ref ast.nodes ≡ some n
    → (n ≡ inner) ⊎ ((n ≡ outer) × (ref ≡ "loop"))
unfolding last_with
looked_up ref n e = elim (Bool-cases (str_eq "update" ref)) [
  | inl t ↦ let same : some inner ≡ some n = rw (t, last_with) at e in inl (sym (cc same))
  | inr f ↦ elim (Bool-cases (str_eq "loop" ref)) [
    | inl t ↦
        let same : some outer ≡ some n = rw (f, t, last_with) at e in
        inr (sym (cc same), sym ((eq_iff "loop" ref).0 t))
    | inr g ↦ absurd (ground (arith, rw (f, g, last_with) at e))
  ]
]

update_known : node_by_id "update" ast.nodes ≡ some inner
unfolding last_with
update_known = refl

loop_known : node_by_id "loop" ast.nodes ≡ some outer
unfolding last_with
loop_known = refl

child_update :
    (ref child : String) (n : AstNode)
    → node_by_id ref ast.nodes ≡ some n
    → Has child (children_of n)
    → ("update" ≡ child) × (ref ≡ "loop")
child_update ref child n e h = elim (looked_up ref n e) [
  | inl p ↦ absurd (subst (λ m. Has child (children_of m)) p h)
  | inr (p, q) ↦ elim (subst (λ m. Has child (children_of m)) p h) [
    | inl r ↦ (r, q)
    | inr none_left ↦ absurd none_left
  ]
]

nested : IsNested ast depth
nested = record {
  rooted = λ ref. elim [
    | inl p ↦ (outer, subst (λ r. node_by_id r ast.nodes ≡ some outer) p loop_known)
    | inr h ↦ absurd h
  ];
  named = λ ref child n e h.
      let (p, _) = child_update ref child n e h in
      (inner, subst (λ r. node_by_id r ast.nodes ≡ some inner) p update_known);
  descends = λ ref child n e h.
      let (p, q) = child_update ref child n e h in
      let less : depth "update" < depth "loop" = omega arith in
      subst (λ c. depth c < depth ref) p (subst (λ r. depth "update" < depth r) (sym q) less);
}

loop_ancestors-Encloses_example :
    (out : List (String × List String)) × (loop_ancestors ast ≡ some out)
    × ((ref l : String) → Has l (ancestors ref out) ↔ Encloses ast ref l)
loop_ancestors-Encloses_example = loop_ancestors-Encloses ast depth nested
