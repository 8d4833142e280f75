-- ===== src/Graph/Examples.antt =====
-- Two tenants with an edge each.
use atlas_db_agent.Prelude.{
  ℕ, ◌≡◌, refl, String, Option, some, none, [], ◌∷◌, collect, contains, length, any, arith,
}
use atlas_db_agent.Values.{Hashes, null, done}
use atlas_db_agent.Graph.Rows.{ProcedureGraph, GraphNode, GraphEdge, Store}
use atlas_db_agent.Graph.Store.{Engine, IsLawful, Neighborhood, ingest, neighborhood}
use atlas_db_agent.Graph.Ingested.{ingest-ingest}
use atlas_db_agent.Graph.Near.{IsWithin}
use atlas_db_agent.Graph.Within.{neighborhood-IsWithin}

abbrev hashes : Hashes
hashes = record {
  canonical_digest = λ v. "digest";
  canonical_json = λ v. "{}";
  loads = λ s. null;
  sha256_hex = λ s. s;
  gherkin_digest = some;
  canonical_timestamp = some;
}

abbrev node : String → GraphNode
node id = record {
  node_id = id;
  node_type = "TABLE";
  label = id;
  authority = "TECHNICAL_EVIDENCE";
  status = "OBSERVED_OR_EXTRACTED";
  attributes = done;
}

abbrev edge : String → String → String → GraphEdge
edge id source target = record {
  edge_id = id;
  source = source;
  target = target;
  edge_type = "WRITES";
  attributes = done;
}

abbrev graph : ProcedureGraph
graph = record {
  dump = done;
  graph_id = "G";
  procedure_ref = "S.P";
  nodes = node "P" ∷ node "T" ∷ [];
  edges = edge "E1" "P" "T" ∷ [];
  content_digest = "digest";
}

abbrev empty : Store
empty = record { documents = []; nodes = []; edges = [] }

abbrev store : Store
store = (ingest hashes "B" graph ((ingest hashes "A" graph empty).1)).1

abbrev engine : Engine
engine = record { edges_in_order = λ rs. rs; nodes_in_order = λ rs. rs }

engine-IsLawful : IsLawful engine
engine-IsLawful = record {
  edges_same = λ r rs. (λ h. h, λ h. h);
  nodes_same = λ r rs. (λ h. h, λ h. h);
}

abbrev size : Option Neighborhood → Option (ℕ × ℕ)
size none = none
size (some r) = some (length r.nodes, length r.edges)

neighborhood_of_one_tenant : size (neighborhood engine "A" 500 store "P" 2) ≡ some (2, 1)
unfolding neighborhood ingest collect contains any
neighborhood_of_one_tenant = refl

-- A chain of two edges, with room for both: the first edge is returned again and takes the place of
-- the second.
abbrev chain : ProcedureGraph
chain = record {
  dump = done;
  graph_id = "G";
  procedure_ref = "S.P";
  nodes = node "P" ∷ node "T" ∷ node "U" ∷ [];
  edges = edge "E1" "P" "T" ∷ edge "E2" "T" "U" ∷ [];
  content_digest = "digest";
}

second_edge_left_out :
    size (neighborhood engine "A" 2 ((ingest hashes "A" chain empty).1) "P" 2) ≡ some (2, 1)
unfolding neighborhood ingest collect contains any
second_edge_left_out = refl

too_deep : neighborhood engine "A" 500 store "P" 9 ≡ none
unfolding neighborhood
too_deep = refl

ingest-ingest_example :
    ingest hashes "A" graph ((ingest hashes "A" graph empty).1) ≡ ingest hashes "A" graph empty
ingest-ingest_example = ingest-ingest hashes "A" graph empty

neighborhood-IsWithin_example :
    (r : Neighborhood) × (neighborhood engine "A" 500 store "P" 2 ≡ some r)
    × IsWithin "A" 500 store "P" 2 r
neighborhood-IsWithin_example =
    neighborhood-IsWithin engine engine-IsLawful "A" 500 store "P" 2 (omega arith)
