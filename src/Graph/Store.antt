-- ===== src/Graph/Store.antt =====
-- `ingest` and `neighborhood` of `PersistentKnowledgeGraphStore` (graph/store.py). In which order SQLite
-- returns the rows of a query without ORDER BY is a parameter.
use atlas_db_agent.Prelude.{
  ℕ, zero, suc, ◌-◌, Bool, true, false, not, ◌&&◌, ◌||◌, String, Option, none, some, List, [], ◌∷◌,
  ◌++◌, ◌↔◌, Has, any, contains, collect, nonempty, length, take, leb, ltb, str_eq, if◌then◌else◌,
}
use atlas_db_agent.Values.{Hashes, object, text, with_field}
use atlas_db_agent.Graph.Rows.{
  GraphNode, GraphEdge, ProcedureGraph, DocumentRow, NodeRow, EdgeRow, Store, same_document,
  same_node, same_edge, same_record,
}

-- `INSERT OR IGNORE`, of one row and of one after the other.
unfoldable pub insert_or_ignore : {R : Type 0} → (R → R → Bool) → R → List R → List R
insert_or_ignore same r rows = if any (same r) rows then rows else rows ++ (r ∷ [])

unfoldable pub insert_each : {R : Type 0} → (R → R → Bool) → List R → List R → List R
unfolding insert_or_ignore
insert_each same [] rows = rows
insert_each same (r ∷ rs) rows = insert_each same rs (insert_or_ignore same r rows)

pub record Ingested : Type 0 where
  pub graph_id : String
  pub graph_digest : String
  pub nodes_ingested : ℕ
  pub edges_ingested : ℕ

module _ (h : Hashes) (tenant_ref : String) where
  abbrev pub document_row : ProcedureGraph → DocumentRow
  document_row g = record {
    tenant_ref = tenant_ref;
    graph_id = g.graph_id;
    graph_digest = g.content_digest;
    procedure_ref = g.procedure_ref;
    payload_json =
        h.canonical_json (object (with_field g.dump "content_digest" (text g.content_digest)));
  }

  abbrev pub node_row : ProcedureGraph → GraphNode → NodeRow
  node_row g n = record {
    tenant_ref = tenant_ref;
    graph_id = g.graph_id;
    graph_digest = g.content_digest;
    node_id = n.node_id;
    node_type = n.node_type;
    label = n.label;
    authority = n.authority;
    status = n.status;
    attributes_json = h.canonical_json (object n.attributes);
  }

  abbrev pub edge_row : ProcedureGraph → GraphEdge → EdgeRow
  edge_row g e = record {
    tenant_ref = tenant_ref;
    graph_id = g.graph_id;
    graph_digest = g.content_digest;
    edge_id = e.edge_id;
    source_node = e.source;
    target_node = e.target;
    edge_type = e.edge_type;
    attributes_json = h.canonical_json (object e.attributes);
  }

  abbrev pub inserted : ProcedureGraph → Store → Store
  inserted g s = record {
    documents = insert_or_ignore same_document (document_row g) s.documents;
    nodes = insert_each same_node (collect (λ n. true) (node_row g) g.nodes) s.nodes;
    edges = insert_each same_edge (collect (λ e. true) (edge_row g) g.edges) s.edges;
  }

  -- `none` is the GraphStoreError.
  unfoldable pub ingest : ProcedureGraph → Store → Option Ingested × Store
  unfolding insert_each insert_or_ignore
  ingest g s =
      if not (str_eq (h.canonical_digest (object g.dump)) g.content_digest) then (none, s) else (
        some record {
          graph_id = g.graph_id;
          graph_digest = g.content_digest;
          nodes_ingested = length g.nodes;
          edges_ingested = length g.edges;
        },
        inserted g s,
      )

-- The orders of the two queries of `neighborhood`.
pub record Engine : Type 0 where
  pub edges_in_order : List EdgeRow → List EdgeRow
  pub nodes_in_order : List NodeRow → List NodeRow

-- Rows are returned in some order, none added and none left out.
pub record IsLawful (q : Engine) : Type 0 where
  pub edges_same : (r : EdgeRow) (rs : List EdgeRow) → Has r (q.edges_in_order rs) ↔ Has r rs
  pub nodes_same : (r : NodeRow) (rs : List NodeRow) → Has r (q.nodes_in_order rs) ↔ Has r rs

-- `edges`, `visited` and `frontier`; the sets are lists.
pub record Hood : Type 0 where
  pub edges : List EdgeRow
  pub visited : List String
  pub frontier : List String

-- The keys of a result, less its digest.
pub record Neighborhood : Type 0 where
  pub node_id : String
  pub depth : ℕ
  pub nodes : List NodeRow
  pub edges : List EdgeRow

-- `if candidate not in visited:`
abbrev pub visit : String → Hood → Hood
visit c s = elim (contains c s.visited) [
  | true ↦ s
  | false ↦ record { edges = s.edges; visited = c ∷ s.visited; frontier = c ∷ s.frontier }
]

-- `if record not in edges:`
abbrev pub noted : EdgeRow → Hood → Hood
noted r s = elim (any (same_record r) s.edges) [
  | true ↦ s
  | false ↦ record { edges = s.edges ++ (r ∷ []); visited = s.visited; frontier = s.frontier }
]

abbrev pub add_row : EdgeRow → Hood → Hood
add_row r s = visit r.target_node (visit r.source_node (noted r s))

unfoldable pub add_rows : List EdgeRow → Hood → Hood
unfolding any contains
add_rows [] s = s
add_rows (r ∷ rs) s = add_rows rs (add_row r s)

module _ (q : Engine) (tenant_ref : String) (limit : ℕ) (store : Store) where
  abbrev pub touches : List String → EdgeRow → Bool
  touches frontier r =
      str_eq r.tenant_ref tenant_ref
      && (contains r.source_node frontier || contains r.target_node frontier)

  abbrev pub rows_at : Hood → List EdgeRow
  rows_at s =
      take (limit - length s.edges)
        (q.edges_in_order (collect (touches s.frontier) (λ r. r) store.edges))

  -- One pass of the loop: `next_frontier` starts empty.
  abbrev pub round : Hood → Hood
  round s = add_rows (rows_at s) record { edges = s.edges; visited = s.visited; frontier = [] }

  unfoldable pub expand : ℕ → Hood → Hood
  unfolding add_rows collect
  expand zero s = s
  expand (suc n) s =
      let further = expand n (round s) in
      if not (nonempty s.frontier) || leb limit (length s.edges) then s else further

  abbrev pub node_rows : List String → List NodeRow
  node_rows visited = q.nodes_in_order (
      collect (λ (r : NodeRow). str_eq r.tenant_ref tenant_ref && contains r.node_id visited)
        (λ r. r) store.nodes)

  -- `none` is the GraphStoreError; a depth below zero is not a natural number.
  unfoldable pub neighborhood : String → ℕ → Option Neighborhood
  unfolding expand
  neighborhood node_id depth =
      let found =
        expand depth record { edges = []; visited = node_id ∷ []; frontier = node_id ∷ [] } in
      if ltb 8 depth
      then none
      else some record {
        node_id = node_id;
        depth = depth;
        nodes = node_rows found.visited;
        edges = found.edges;
      }
