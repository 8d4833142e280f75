-- ===== src/Graph/Ingested.antt =====
-- A graph that was ingested is not ingested again.
use atlas_db_agent.Prelude.{
  ◌≡◌, refl, ap, ◌∙◌, subst, Bool, true, false, ◌||◌, inl, inr, List, [], ◌∷◌, ◌++◌, Has, any,
  collect, arith, Bool-cases, eq_refl, String, str_eq, none, some, length,
}
use atlas_db_agent.Values.{Hashes, object}
use atlas_db_agent.Graph.Rows.{
  ProcedureGraph, DocumentRow, NodeRow, EdgeRow, Store, same_document, same_node, same_edge,
}
use atlas_db_agent.Graph.Store.{
  insert_or_ignore, insert_each, document_row, node_row, edge_row, Ingested, inserted, ingest,
}

module _ {R : Type 0} (same : R → R → Bool) (same_itself : (r : R) → same r r ≡ true) where
  any-append : (p : R → Bool) (xs ys : List R) → any p (xs ++ ys) ≡ (any p xs || any p ys)
  unfolding any
  any-append p [] ys = refl
  any-append p (x ∷ xs) ys = ground (arith, any-append p xs ys)

  insert-keeps :
      (p : R → Bool) (r : R) (rows : List R)
      → any p rows ≡ true
      → any p (insert_or_ignore same r rows) ≡ true
  unfolding insert_or_ignore
  insert-keeps p r rows e = elim (Bool-cases (any (same r) rows)) [
    | inl t ↦ rw t e
    | inr f ↦ rw (f, any-append p rows (r ∷ []), e) refl
  ]

  insert-present : (r : R) (rows : List R) → any (same r) (insert_or_ignore same r rows) ≡ true
  unfolding insert_or_ignore any
  insert-present r rows = elim (Bool-cases (any (same r) rows)) [
    | inl t ↦ rw t t
    | inr f ↦ rw (f, any-append (same r) rows (r ∷ []), f, same_itself r) refl
  ]

  insert_each-keeps :
      (p : R → Bool) (rs rows : List R)
      → any p rows ≡ true
      → any p (insert_each same rs rows) ≡ true
  unfolding insert_each
  insert_each-keeps p [] rows e = e
  insert_each-keeps p (r ∷ rs) rows e =
      insert_each-keeps p rs (insert_or_ignore same r rows) (insert-keeps p r rows e)

  insert_each-present :
      (rs rows : List R) (x : R) → Has x rs → any (same x) (insert_each same rs rows) ≡ true
  unfolding insert_each
  insert_each-present [] rows x = λ h. absurd h
  insert_each-present (r ∷ rs) rows x = elim [
    | inl e ↦
        subst (λ z. any (same z) (insert_each same (r ∷ rs) rows) ≡ true) e
          (insert_each-keeps (same r) rs (insert_or_ignore same r rows) (insert-present r rows))
    | inr h ↦ insert_each-present rs (insert_or_ignore same r rows) x h
  ]

  insert-known :
      (r : R) (rows : List R) → any (same r) rows ≡ true → insert_or_ignore same r rows ≡ rows
  unfolding insert_or_ignore
  insert-known r rows e = rw e refl

  pub insert-twice :
      (r : R) (rows : List R)
      → insert_or_ignore same r (insert_or_ignore same r rows) ≡ insert_or_ignore same r rows
  insert-twice r rows = insert-known r (insert_or_ignore same r rows) (insert-present r rows)

  insert_each-known :
      (rs rows : List R)
      → ((x : R) → Has x rs → any (same x) rows ≡ true)
      → insert_each same rs rows ≡ rows
  unfolding insert_each insert_or_ignore
  insert_each-known [] rows known = refl
  insert_each-known (r ∷ rs) rows known =
      rw (known r (inl refl)) (insert_each-known rs rows (λ x h. known x (inr h)))

  pub insert_each-twice :
      (rs rows : List R) → insert_each same rs (insert_each same rs rows) ≡ insert_each same rs rows
  insert_each-twice rs rows =
      insert_each-known rs (insert_each same rs rows) (insert_each-present rs rows)

same_document_itself : (r : DocumentRow) → same_document r r ≡ true
same_document_itself r = simp (eq_refl)

same_node_itself : (r : NodeRow) → same_node r r ≡ true
same_node_itself r = simp (eq_refl)

same_edge_itself : (r : EdgeRow) → same_edge r r ≡ true
same_edge_itself r = simp (eq_refl)

module _ (h : Hashes) (tenant_ref : String) (g : ProcedureGraph) where
  inserted_twice :
      (s : Store) → inserted h tenant_ref g (inserted h tenant_ref g s) ≡ inserted h tenant_ref g s
  inserted_twice s =
      rw
        (
          insert-twice same_document same_document_itself (document_row h tenant_ref g) s.documents,
          insert_each-twice same_node same_node_itself
              (collect (λ n. true) (node_row h tenant_ref g) g.nodes) s.nodes,
          insert_each-twice same_edge same_edge_itself
              (collect (λ e. true) (edge_row h tenant_ref g) g.edges) s.edges,
        )
        refl

  abbrev is_valid : Bool
  is_valid = str_eq (h.canonical_digest (object g.dump)) g.content_digest

  abbrev answer : Ingested
  answer = record {
    graph_id = g.graph_id;
    graph_digest = g.content_digest;
    nodes_ingested = length g.nodes;
    edges_ingested = length g.edges;
  }

  ingest-valid :
      (s : Store)
      → is_valid ≡ true
      → ingest h tenant_ref g s ≡ (some answer, inserted h tenant_ref g s)
  unfolding ingest
  ingest-valid s e = rw e refl

  ingest-invalid : (s : Store) → is_valid ≡ false → ingest h tenant_ref g s ≡ (none, s)
  unfolding ingest
  ingest-invalid s e = rw e refl

  -- Ingesting a graph a second time changes nothing and answers the same, whether its digest is valid or
  -- not.
  pub ingest-ingest :
      (s : Store) → ingest h tenant_ref g ((ingest h tenant_ref g s).1) ≡ ingest h tenant_ref g s
  ingest-ingest s = elim (Bool-cases is_valid) [
    | inl t ↦
        rw (ingest-valid s t) (
          ingest-valid (inserted h tenant_ref g s) t
          ∙ ap (λ z. (some answer, z)) (inserted_twice s))
    | inr f ↦ rw (ingest-invalid s f) (ingest-invalid s f)
  ]
