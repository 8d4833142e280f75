-- ===== src/Graph/Rows.antt =====
-- The graphs of commercial/models.py and the tables of graph/store.py. A table is the list of its rows,
-- in the order of insertion; attributes are held as their JSON text.
use atlas_db_agent.Prelude.{Bool, ◌&&◌, String, List, str_eq}
use atlas_db_agent.Values.{Fields}

pub record GraphNode : Type 0 where
  pub node_id : String
  pub node_type : String
  pub label : String
  pub authority : String
  pub status : String
  pub attributes : Fields

pub record GraphEdge : Type 0 where
  pub edge_id : String
  pub source : String
  pub target : String
  pub edge_type : String
  pub attributes : Fields

pub record ProcedureGraph : Type 0 where
  pub dump : Fields
  pub graph_id : String
  pub procedure_ref : String
  pub nodes : List GraphNode
  pub edges : List GraphEdge
  pub content_digest : String

pub record DocumentRow : Type 0 where
  pub tenant_ref : String
  pub graph_id : String
  pub graph_digest : String
  pub procedure_ref : String
  pub payload_json : String

pub record NodeRow : Type 0 where
  pub tenant_ref : String
  pub graph_id : String
  pub graph_digest : String
  pub node_id : String
  pub node_type : String
  pub label : String
  pub authority : String
  pub status : String
  pub attributes_json : String

pub record EdgeRow : Type 0 where
  pub tenant_ref : String
  pub graph_id : String
  pub graph_digest : String
  pub edge_id : String
  pub source_node : String
  pub target_node : String
  pub edge_type : String
  pub attributes_json : String

pub record Store : Type 0 where
  pub documents : List DocumentRow
  pub nodes : List NodeRow
  pub edges : List EdgeRow

-- The primary keys.
abbrev pub same_document : DocumentRow → DocumentRow → Bool
same_document a b =
    str_eq a.tenant_ref b.tenant_ref
    && str_eq a.graph_id b.graph_id
    && str_eq a.graph_digest b.graph_digest

abbrev pub same_node : NodeRow → NodeRow → Bool
same_node a b =
    str_eq a.tenant_ref b.tenant_ref
    && str_eq a.graph_id b.graph_id
    && str_eq a.graph_digest b.graph_digest
    && str_eq a.node_id b.node_id

abbrev pub same_edge : EdgeRow → EdgeRow → Bool
same_edge a b =
    str_eq a.tenant_ref b.tenant_ref
    && str_eq a.graph_id b.graph_id
    && str_eq a.graph_digest b.graph_digest
    && str_eq a.edge_id b.edge_id

-- Equality of the records of two rows, without the tenant and with the attributes as texts.
abbrev pub same_record : EdgeRow → EdgeRow → Bool
same_record a b =
    str_eq a.graph_id b.graph_id
    && str_eq a.graph_digest b.graph_digest
    && str_eq a.edge_id b.edge_id
    && str_eq a.source_node b.source_node
    && str_eq a.target_node b.target_node
    && str_eq a.edge_type b.edge_type
    && str_eq a.attributes_json b.attributes_json
