-- ===== src/Store/Statements/Columns/Edges.antt =====
-- The columns that the statement of an edge gives.
use esgraph.Prelude.{ℕ, true, ◌≡◌, refl, Option, none, some, All}
use esgraph.Prelude.Int.{i64_saturated}
use esgraph.Prelude.Text.{Text, text}
use esgraph.Core.Model.{
  GraphEdge, EdgeKind, executed, forked, exited, remote_thread_created, got_task, created, wrote,
  unlinked, renamed, opened, closed, uipc_bound, uipc_connected,
}
use esgraph.Store.Statements.{opt_pair, edge_props, edge_kind_name}
use esgraph.Store.Statements.Columns.{string, int64, declared, GivesColumn}

-- The columns that every table of relationships has.
abbrev HasProps : Text → Type 0
HasProps rel =
    (declared (text "REL") rel (text "timestamp_unix_ns") (text "INT64") ≡ true)
    × (declared (text "REL") rel (text "event_name") (text "STRING") ≡ true)
    × (declared (text "REL") rel (text "ingest_event_id") (text "INT64") ≡ true)
    × (declared (text "REL") rel (text "metadata") (text "STRING") ≡ true)

edge_kind_name-HasProps : (kind : EdgeKind) → HasProps (edge_kind_name kind)
unfolding edge_kind_name declared
edge_kind_name-HasProps executed = (refl, refl, refl, refl)
edge_kind_name-HasProps forked = (refl, refl, refl, refl)
edge_kind_name-HasProps exited = (refl, refl, refl, refl)
edge_kind_name-HasProps remote_thread_created = (refl, refl, refl, refl)
edge_kind_name-HasProps got_task = (refl, refl, refl, refl)
edge_kind_name-HasProps created = (refl, refl, refl, refl)
edge_kind_name-HasProps wrote = (refl, refl, refl, refl)
edge_kind_name-HasProps unlinked = (refl, refl, refl, refl)
edge_kind_name-HasProps renamed = (refl, refl, refl, refl)
edge_kind_name-HasProps opened = (refl, refl, refl, refl)
edge_kind_name-HasProps closed = (refl, refl, refl, refl)
edge_kind_name-HasProps uipc_bound = (refl, refl, refl, refl)
edge_kind_name-HasProps uipc_connected = (refl, refl, refl, refl)

pub edge_props-GivesColumn :
    (edge : GraphEdge) (event_name : Text) (ingest_event_id : ℕ)
    → All (GivesColumn (edge_kind_name edge.kind)) (edge_props edge event_name ingest_event_id)
unfolding edge_props
edge_props-GivesColumn edge event_name id =
    let (timestamp, name, event, metadata) = edge_kind_name-HasProps edge.kind in
    (
      (text "timestamp_unix_ns", int64 edge.timestamp_unix_ns, refl, timestamp),
      (
        (text "event_name", string event_name, refl, name),
        (
          (text "ingest_event_id", int64 (i64_saturated id), refl, event),
          given edge.metadata metadata,
        ),
      ),
    )
  where
    given :
        (m : Option Text)
        → declared (text "REL") (edge_kind_name edge.kind) (text "metadata") (text "STRING") ≡ true
        → All (GivesColumn (edge_kind_name edge.kind)) (opt_pair (text "metadata") m)
    given none h = tt
    given (some v) h = ((text "metadata", string v, refl, h), tt)
