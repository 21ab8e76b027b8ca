-- ===== src/Store/Batch/Scripts.antt =====
-- The script of a batch is read back as the statements that it was made of.
use esgraph.Prelude.{
  ℕ, ◌+◌, ◌%◌, ◌^◌, ◌<◌, ◌≡◌, ◌∙◌, ap, subst, List, [], ◌∷◌, ◌++◌, length, All, All-append, ok,
  bind-eq-ok, Option, arith,
}
use esgraph.Prelude.Int.{ℤ}
use esgraph.Prelude.Text.{Text, join}
use esgraph.Core.Model.{GraphNode, GraphEdge, EventDetails, NormalisedEvent}
use esgraph.Store.Cypher.Script.{IsStatement, separator, statements_of, statements_of-join}
use esgraph.Store.Statements.{
  merge_node_stmt, insert_ingest_event_stmt, insert_edge_stmt, ensure_edge_endpoints,
}
use esgraph.Store.Statements.Closed.{
  insert_ingest_event_stmt-IsStatement, merge_node_stmt-IsStatement, insert_edge_stmt-IsStatement,
  ensure_edge_endpoints-IsStatement,
}
use esgraph.Store.Batch.{
  IngestStats, Driver, Building, StoreState, nothing_built, push, add_node, add_edge, add_event,
  push_nodes, push_edges, push_event, push_events, ingest_batch,
}
use esgraph.Store.Batch.Counts.{
  totals, add_no_stats, script_length, push_events-cons, push_events-stats, totals_pos,
}
use esgraph.Store.Batch.Commits.{IsCommitted, ingest_batch-IsCommitted}

-- Everything collected so far is one statement each.
abbrev HoldsStatements : Building → Type 0
HoldsStatements b = All IsStatement b.statements

module _ {DbError IoError : Type 0} where
  push_nodes-HoldsStatements :
      (ts : ℤ) (b : Building) (nodes : List GraphNode) {b' : Building}
      → HoldsStatements b
      → push_nodes {DbError = DbError} {IoError = IoError} ts b nodes ≡ ok b'
      → HoldsStatements b'
  unfolding push_nodes
  push_nodes-HoldsStatements ts b [] {b'} held h = subst HoldsStatements {x = b} {y = b'} (cc) held
  push_nodes-HoldsStatements ts b (node ∷ rest) held h =
      let (s, made, later) = bind-eq-ok (merge_node_stmt node ts) _ h in
      let held' =
        All-append IsStatement b.statements (s ∷ []) held
          (merge_node_stmt-IsStatement node ts made, tt) in
      push_nodes-HoldsStatements ts (add_node b s) rest held' later

  push_edges-HoldsStatements :
      (name : Text) (id : ℕ) (b : Building) (edges : List GraphEdge) {b' : Building}
      → HoldsStatements b
      → push_edges {DbError = DbError} {IoError = IoError} name id b edges ≡ ok b'
      → HoldsStatements b'
  unfolding push_edges
  push_edges-HoldsStatements name id b [] {b'} held h =
      subst HoldsStatements {x = b} {y = b'} (cc) held
  push_edges-HoldsStatements name id b (edge ∷ rest) held h =
      let (stubs, stubbed, more) = bind-eq-ok (ensure_edge_endpoints edge) _ h in
      let (s, made, later) = bind-eq-ok (insert_edge_stmt edge name id) _ more in
      let new =
        All-append IsStatement stubs (s ∷ []) (ensure_edge_endpoints-IsStatement edge stubbed)
          (insert_edge_stmt-IsStatement edge name id made, tt) in
      push_edges-HoldsStatements name id (add_edge b stubs s) rest
        (All-append IsStatement b.statements (stubs ++ s ∷ []) held new) later

  module _ (to_json : EventDetails → Option Text) where
    push_event-HoldsStatements :
        (id : ℕ) (b : Building) (event : NormalisedEvent) {b' : Building}
        → HoldsStatements b
        → push_event {DbError = DbError} {IoError = IoError} to_json id b event ≡ ok b'
        → HoldsStatements b'
    unfolding push_event
    push_event-HoldsStatements id b event {b'} held h =
        let first = insert_ingest_event_stmt to_json id event in
        let started = push b (first ∷ []) in
        let (b1, nodes, more) =
          bind-eq-ok (push_nodes event.timestamp_unix_ns started event.nodes) _ h in
        let (b2, edges, done) = bind-eq-ok (push_edges event.event_name id b1 event.edges) _ more in
        let held' =
          All-append IsStatement b.statements (first ∷ []) held
            (insert_ingest_event_stmt-IsStatement to_json id event, tt) in
        let held1 =
          push_nodes-HoldsStatements event.timestamp_unix_ns started event.nodes held' nodes in
        subst HoldsStatements {x = add_event b2} {y = b'} (cc)
          (push_edges-HoldsStatements event.event_name id b1 event.edges held1 edges)

    push_events-HoldsStatements :
        (next : ℕ) (b : Building) (events : List NormalisedEvent) {b' : Building}
        → HoldsStatements b
        → (push_events {DbError = DbError} {IoError = IoError} to_json next b events).0 ≡ ok b'
        → HoldsStatements b'
    push_events-HoldsStatements next b [] {b'} held h =
        subst HoldsStatements {x = b} {y = b'} (unfold push_events in cc) held
    push_events-HoldsStatements next b (event ∷ rest) held h =
        let (b1, first, later) = push_events-cons to_json next b event rest h in
        push_events-HoldsStatements ((next + 1) % 2 ^ 64) b1 rest
          (push_event-HoldsStatements next b event held first) (rw later at h)

read_back :
    (ss : List Text) → 0 < length ss → All IsStatement ss → statements_of (join separator ss) ≡ ss
read_back [] h st = elim h [ ]
read_back (s ∷ ss) h st = statements_of-join s ss st

module _ {Database DbError Row : Type 0} (IoError : Type 0) (driver : Driver Database DbError Row)
    (to_json : EventDetails → Option Text) where
  -- The script that a batch of at least one event runs is read, by a reader that cuts it at the
  -- semicolons outside of string literals, as exactly the statements that were collected: one for
  -- each event and each node upsert and three for each edge, whatever texts the events hold.
  pub ingest_batch-script :
      (event : NormalisedEvent) (rest : List NormalisedEvent) (s : StoreState Database)
      {stats : IngestStats}
      → (ingest_batch {IoError = IoError} driver to_json (event ∷ rest) s).0 ≡ ok stats
      → (c : IsCommitted IoError driver to_json
          (event ∷ rest)
          s
          (ingest_batch {IoError = IoError} driver to_json (event ∷ rest) s).1
          stats)
        × (statements_of (join separator c.built.statements) ≡ c.built.statements)
        × (length c.built.statements ≡ script_length stats)
  ingest_batch-script event rest s {stats} h =
      let c = ingest_batch-IsCommitted IoError driver to_json event rest s h in
      let held =
        push_events-HoldsStatements to_json s.next_ingest_id nothing_built (event ∷ rest) tt
          c.is_built in
      let counts =
        push_events-stats to_json s.next_ingest_id nothing_built (event ∷ rest) c.is_built in
      let totalled : stats ≡ totals (event ∷ rest) = c.counted ∙ counts.0 ∙ add_no_stats _ in
      let counted : length c.built.statements ≡ script_length stats =
        omega (arith, counts.1, ap script_length totalled) in
      (
        c,
        read_back c.built.statements (omega (arith, counts.1, totals_pos event rest)) held,
        counted,
      )
