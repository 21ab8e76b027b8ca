-- ===== src/Store/Batch/Counts.antt =====
-- The counters that a batch returns, and the ids that its events take.
use esgraph.Prelude.{
  ℕ, ◌+◌, ◌*◌, ◌%◌, ◌^◌, ◌<◌, ◌≡◌, ◌∙◌, List, [], ◌∷◌, ◌++◌, ◌++◌, length, length-append, ok,
  bind-eq-ok, Option, arith,
}
use esgraph.Prelude.Int.{ℤ}
use esgraph.Prelude.Text.{Text}
use esgraph.Core.Model.{GraphNode, GraphEdge, EventDetails, NormalisedEvent}
use esgraph.Store.Statements.{
  insert_ingest_event_stmt, merge_node_stmt, insert_edge_stmt, ensure_edge_endpoints,
}
use esgraph.Store.Batch.{
  IngestStats, no_stats, Building, push, add_node, add_edge, push_nodes, push_edges, push_event,
  push_events,
}

-- What a batch amounts to: its events, and the nodes and edges that they carry.
unfoldable pub totals : List NormalisedEvent → IngestStats
totals [] = no_stats
totals (event ∷ rest) =
    let later = totals rest in
    record {
      events = later.events + 1;
      node_upserts = length event.nodes + later.node_upserts;
      edges_inserted = length event.edges + later.edges_inserted;
    }

-- Counters added field by field.
unfoldable pub add_stats : IngestStats → IngestStats → IngestStats
add_stats a b = record {
  events = a.events + b.events;
  node_upserts = a.node_upserts + b.node_upserts;
  edges_inserted = a.edges_inserted + b.edges_inserted;
}

pub add_no_stats : (t : IngestStats) → add_stats no_stats t ≡ t
unfolding add_stats
add_no_stats t = ground arith

pub add_stats_assoc :
    (a b c : IngestStats) → add_stats (add_stats a b) c ≡ add_stats a (add_stats b c)
unfolding add_stats
add_stats_assoc a b c = ground arith

pub add_stats_none : (t : IngestStats) → add_stats t no_stats ≡ t
unfolding add_stats
add_stats_none t = ground arith

pub totals-append :
    (xs ys : List NormalisedEvent) → totals (xs ++ ys) ≡ add_stats (totals xs) (totals ys)
unfolding totals add_stats
totals-append [] ys = ground arith
totals-append (x ∷ xs) ys = ground (arith, totals-append xs ys)

pub totals_pos :
    (event : NormalisedEvent) (rest : List NormalisedEvent) → 0 < (totals (event ∷ rest)).events
unfolding totals
totals_pos event rest = omega arith

-- The statements of a batch with these counters: one for each event and node, three for an edge.
abbrev pub script_length : IngestStats → ℕ
script_length t = t.events + t.node_upserts + 3 * t.edges_inserted

module _ {DbError IoError : Type 0} where
  push_nodes-stats :
      (ts : ℤ) (b : Building) (nodes : List GraphNode) {b' : Building}
      → push_nodes {DbError = DbError} {IoError = IoError} ts b nodes ≡ ok b'
      → (b'.stats ≡ record b.stats { node_upserts = b.stats.node_upserts + length nodes })
        × (length b'.statements ≡ length b.statements + length nodes)
  unfolding push_nodes
  push_nodes-stats ts b [] h = ground arith
  push_nodes-stats ts b (node ∷ rest) h =
      let (s, made, later) = bind-eq-ok (merge_node_stmt node ts) _ h in
      ground
        (arith, push_nodes-stats ts (add_node b s) rest later, length-append b.statements (s ∷ []))

  length-endpoints :
      (edge : GraphEdge) {ss : List Text}
      → ensure_edge_endpoints {DbError = DbError} {IoError = IoError} edge ≡ ok ss
      → length ss ≡ 2
  unfolding ensure_edge_endpoints
  length-endpoints edge h = ground arith

  push_edges-stats :
      (name : Text) (id : ℕ) (b : Building) (edges : List GraphEdge) {b' : Building}
      → push_edges {DbError = DbError} {IoError = IoError} name id b edges ≡ ok b'
      → (b'.stats ≡ record b.stats { edges_inserted = b.stats.edges_inserted + length edges })
        × (length b'.statements ≡ length b.statements + 3 * length edges)
  unfolding push_edges
  push_edges-stats name id b [] h = ground arith
  push_edges-stats name id b (edge ∷ rest) h =
      let (stubs, made, more) = bind-eq-ok (ensure_edge_endpoints edge) _ h in
      let (s, inserted, later) = bind-eq-ok (insert_edge_stmt edge name id) _ more in
      ground (
        arith,
        push_edges-stats name id (add_edge b stubs s) rest later,
        length-endpoints edge made,
        length-append b.statements (stubs ++ s ∷ []),
        length-append stubs (s ∷ []),
      )

  module _ (to_json : EventDetails → Option Text) where
    push_event-stats :
        (id : ℕ) (b : Building) (event : NormalisedEvent) {b' : Building}
        → push_event {DbError = DbError} {IoError = IoError} to_json id b event ≡ ok b'
        → (b'.stats ≡ add_stats b.stats (totals (event ∷ [])))
          × (length b'.statements
              ≡ length b.statements + 1 + length event.nodes + 3 * length event.edges)
    unfolding push_event totals add_stats
    push_event-stats id b event h =
        let started = push b (insert_ingest_event_stmt to_json id event ∷ []) in
        let (b1, nodes, more) =
          bind-eq-ok (push_nodes event.timestamp_unix_ns started event.nodes) _ h in
        let (b2, edges, done) = bind-eq-ok (push_edges event.event_name id b1 event.edges) _ more in
        ground (
          arith,
          push_nodes-stats event.timestamp_unix_ns started event.nodes nodes,
          push_edges-stats event.event_name id b1 event.edges edges,
          length-append b.statements (insert_ingest_event_stmt to_json id event ∷ []),
        )

    -- A batch that is built has built its first event and then the others.
    pub push_events-cons :
        (next : ℕ) (b : Building) (event : NormalisedEvent) (rest : List NormalisedEvent)
        {b' : Building}
        → (push_events {DbError = DbError} {IoError = IoError} to_json next b (event ∷ rest)).0
          ≡ ok b'
        → (b1 : Building) × (push_event {DbError = DbError} {IoError = IoError} to_json next b event
            ≡ ok b1)
          × (push_events {DbError = DbError} {IoError = IoError} to_json next b (event ∷ rest)
              ≡ push_events to_json ((next + 1) % 2 ^ 64) b1 rest)
    unfolding push_events
    push_events-cons next b event rest h = ground arith

    pub push_events-stats :
        (next : ℕ) (b : Building) (events : List NormalisedEvent) {b' : Building}
        → (push_events {DbError = DbError} {IoError = IoError} to_json next b events).0 ≡ ok b'
        → (b'.stats ≡ add_stats b.stats (totals events))
          × (length b'.statements ≡ length b.statements + script_length (totals events))
    unfolding push_events totals add_stats
    push_events-stats next b [] h = ground arith
    push_events-stats next b (event ∷ rest) h =
        let (b1, first, later) = push_events-cons next b event rest h in
        ground (
          arith,
          push_event-stats next b event first,
          push_events-stats ((next + 1) % 2 ^ 64) b1 rest (rw later at h),
        )

    -- Every event takes one id, whether or not the batch is built to its end.
    pub push_events-next :
        (next : ℕ) (b : Building) (events : List NormalisedEvent) {b' : Building}
        → next < 2 ^ 64
        → (push_events {DbError = DbError} {IoError = IoError} to_json next b events).0 ≡ ok b'
        → (push_events {DbError = DbError} {IoError = IoError} to_json next b events).1
          ≡ (next + length events) % 2 ^ 64
    push_events-next next b [] small h = unfold push_events in omega arith
    push_events-next next b (event ∷ rest) small h =
        let (b1, first, later) = push_events-cons next b event rest h in
        rw later (
          push_events-next ((next + 1) % 2 ^ 64) b1 rest (omega arith) (rw later at h)
          ∙ omega arith)
