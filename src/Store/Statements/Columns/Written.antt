-- ===== src/Store/Statements/Columns/Written.antt =====
-- The columns that the statements of an event write.
use esgraph.Prelude.{ℕ, Bool, Option, All}
use esgraph.Prelude.Int.{ℤ}
use esgraph.Prelude.Text.{Text, text}
use esgraph.Core.Model.{GraphNode, process, file, socket, GraphEdge, EventDetails, NormalisedEvent}
use esgraph.Store.Statements.{
  process_set_clauses, file_set_clauses, socket_set_clauses, ingest_event_clauses, edge_props,
  edge_kind_name,
}
use esgraph.Store.Statements.Columns.{SetsColumn, GivesColumn}
use esgraph.Store.Statements.Columns.Nodes.{
  process_label, file_label, event_label, process_set_clauses-SetsColumn,
  file_set_clauses-SetsColumn, socket_set_clauses-SetsColumn, ingest_event_clauses-SetsColumn,
}
use esgraph.Store.Statements.Columns.Edges.{edge_props-GivesColumn}

-- The clauses of an upsert of the node, where a process may give its arguments or not.
abbrev pub SetsColumns : GraphNode → ℤ → Bool → Type 0
SetsColumns (process p) seen_ns include_args =
    All (SetsColumn process_label) (process_set_clauses p seen_ns include_args)
SetsColumns (file f) seen_ns include_args = All (SetsColumn file_label) (file_set_clauses f seen_ns)
SetsColumns (socket s) seen_ns include_args =
    All (SetsColumn (text "Socket")) (socket_set_clauses s seen_ns)

set_clauses-SetsColumns :
    (node : GraphNode) (seen_ns : ℤ) (include_args : Bool) → SetsColumns node seen_ns include_args
set_clauses-SetsColumns (process p) seen_ns b = process_set_clauses-SetsColumn p seen_ns b
set_clauses-SetsColumns (file f) seen_ns b = file_set_clauses-SetsColumn f seen_ns
set_clauses-SetsColumns (socket s) seen_ns b = socket_set_clauses-SetsColumn s seen_ns

-- Every clause and every property that the statements of an event write, for its own row, for a node
-- and for an edge, gives a column that the schema declares for that table a literal of the type that
-- is declared.
pub statements-SetsColumn :
    (to_json : EventDetails → Option Text) (event : NormalisedEvent) (node : GraphNode)
    (include_args : Bool) (edge : GraphEdge) (ingest_event_id : ℕ)
    → All (SetsColumn event_label) (ingest_event_clauses to_json event)
      × SetsColumns node event.timestamp_unix_ns include_args
      × All
          (GivesColumn (edge_kind_name edge.kind))
          (edge_props edge event.event_name ingest_event_id)
statements-SetsColumn to_json event node include_args edge ingest_event_id = (
  ingest_event_clauses-SetsColumn to_json event,
  set_clauses-SetsColumns node event.timestamp_unix_ns include_args,
  edge_props-GivesColumn edge event.event_name ingest_event_id,
)
