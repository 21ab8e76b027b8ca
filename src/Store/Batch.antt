-- ===== src/Store/Batch.antt =====
-- crates/esgraph-store/src/ingest.rs: `ingest_batch`, which writes a slice of events as one script.
-- The `lbug` driver is a parameter: a connection is opened or refused, and a query gives rows or an
-- error and may change the database.
pub mod Counts
pub mod Commits
pub mod Scripts
pub mod Writable
pub mod Validation
pub mod Sample
pub mod Appends
pub mod Joined
pub mod Orders
pub mod Reads
pub mod ReadBack
pub mod Effects
mod Executed
pub mod Linked
pub mod Repeats
use esgraph.Prelude.{
  ℕ, ◌+◌, ◌%◌, ◌^◌, Bool, Option, List, [], ◌∷◌, ◌++◌, if◌then◌else◌, is_empty, Outcome, ok, err,
  panic, ◌>>=◌,
}
use esgraph.Prelude.Int.{ℤ}
use esgraph.Prelude.Text.{Text, text, join}
use esgraph.Core.Model.{GraphNode, GraphEdge, EventDetails, NormalisedEvent}
use esgraph.Store.Cypher.Script.{separator}
use esgraph.Store.Statements.{
  StoreError, ladybug, merge_node_stmt, insert_ingest_event_stmt, insert_edge_stmt,
  ensure_edge_endpoints,
}

pub record IngestStats : Type 0 where
  pub events : ℕ
  pub node_upserts : ℕ
  pub edges_inserted : ℕ

-- `IngestStats::default`
abbrev pub no_stats : IngestStats
no_stats = record { events = 0; node_upserts = 0; edges_inserted = 0 }

-- What the code calls of `lbug`: `Connection::new` and `Connection::query`.
pub record Driver (Database DbError Row : Type 0) : Type 0 where
  pub connect : Database → Outcome DbError (Unit {0})
  pub query : Text → Database → Outcome DbError (List Row) × Database

-- The statements and the counters that the loop of `ingest_batch` has collected.
pub record Building : Type 0 where
  pub statements : List Text
  pub stats : IngestStats

-- What the store keeps between batches: the database and the counter of ingest ids.
pub record StoreState (Database : Type 0) : Type 0 where
  pub db : Database
  pub next_ingest_id : ℕ

abbrev pub push : Building → List Text → Building
push b ss = record b { statements = b.statements ++ ss }

-- The upsert of a node is collected.
abbrev pub add_node : Building → Text → Building
add_node b s = record {
  statements = b.statements ++ s ∷ [];
  stats = record b.stats { node_upserts = b.stats.node_upserts + 1 };
}

-- The stubs of an edge and the edge are collected.
abbrev pub add_edge : Building → List Text → Text → Building
add_edge b stubs s = record {
  statements = b.statements ++ (stubs ++ s ∷ []);
  stats = record b.stats { edges_inserted = b.stats.edges_inserted + 1 };
}

-- An event is finished.
abbrev pub add_event : Building → Building
add_event b = record b { stats = record b.stats { events = b.stats.events + 1 } }

module _ {DbError IoError : Type 0} where
  -- The loop over the nodes of an event.
  unfoldable pub push_nodes :
      ℤ → Building → List GraphNode → Outcome (StoreError DbError IoError) Building
  push_nodes seen_ns b [] = ok b
  push_nodes seen_ns b (node ∷ rest) = do
    s ← merge_node_stmt node seen_ns
    push_nodes seen_ns (add_node b s) rest

  -- The loop over the edges of an event: two stubs, then the edge.
  unfoldable pub push_edges :
      Text → ℕ → Building → List GraphEdge → Outcome (StoreError DbError IoError) Building
  push_edges event_name ingest_id b [] = ok b
  push_edges event_name ingest_id b (edge ∷ rest) = do
    stubs ← ensure_edge_endpoints edge
    s ← insert_edge_stmt edge event_name ingest_id
    push_edges event_name ingest_id (add_edge b stubs s) rest

module _ {DbError IoError : Type 0} (to_json : EventDetails → Option Text) where
  -- The body of the loop over the events.
  unfoldable pub push_event :
      ℕ → Building → NormalisedEvent → Outcome (StoreError DbError IoError) Building
  unfolding push_nodes push_edges insert_ingest_event_stmt
  push_event ingest_id b event = do
    let started = push b (insert_ingest_event_stmt to_json ingest_id event ∷ [])
    with_nodes ← push_nodes event.timestamp_unix_ns started event.nodes
    with_edges ← push_edges event.event_name ingest_id with_nodes event.edges
    ok (add_event with_edges)

  -- The loop over the events. The counter is advanced for an event before its statements are made,
  -- so it comes back beside an error too. `fetch_add` wraps.
  unfoldable pub push_events :
      ℕ → Building → List NormalisedEvent → Outcome (StoreError DbError IoError) Building × ℕ
  unfolding push_event
  push_events next b [] = (ok b, next)
  push_events next b (event ∷ rest) = elim (push_event next b event) [
    | ok b' ↦ push_events ((next + 1) % 2 ^ 64) b' rest
    | err e ↦ (err e, (next + 1) % 2 ^ 64)
    | panic ↦ (panic, (next + 1) % 2 ^ 64)
  ]

abbrev pub nothing_built : Building
nothing_built = record { statements = []; stats = no_stats }

module _ {Database DbError IoError Row : Type 0} (driver : Driver Database DbError Row) where
  -- `conn.query(&batch)?` and the return of the counters.
  unfoldable pub commit :
      ℕ
      → Building
      → Database
      → Outcome (StoreError DbError IoError) IngestStats × StoreState Database
  commit next b db =
      let (answer, db') = driver.query (join separator b.statements) db in
      let s' : StoreState Database = record { db = db'; next_ingest_id = next } in
      elim answer [
        | ok rows ↦ (ok b.stats, s')
        | err e ↦ (err (ladybug e), s')
        | panic ↦ (panic, s')
      ]

  unfoldable pub ingest_connected :
      (EventDetails → Option Text)
      → List NormalisedEvent
      → StoreState Database
      → Outcome (StoreError DbError IoError) IngestStats × StoreState Database
  unfolding commit push_events
  ingest_connected to_json events s =
      let (built, next) = push_events to_json s.next_ingest_id nothing_built events in
      elim built [
        | ok b ↦ commit next b s.db
        | err e ↦ (err e, record s { next_ingest_id = next })
        | panic ↦ (panic, record s { next_ingest_id = next })
      ]

  -- `ingest_batch`
  unfoldable pub ingest_batch :
      (EventDetails → Option Text)
      → List NormalisedEvent
      → StoreState Database
      → Outcome (StoreError DbError IoError) IngestStats × StoreState Database
  unfolding ingest_connected
  ingest_batch to_json events s =
      if is_empty events then (ok no_stats, s) else elim (driver.connect s.db) [
        | ok conn ↦ ingest_connected to_json events s
        | err e ↦ (err (ladybug e), s)
        | panic ↦ (panic, s)
      ]
