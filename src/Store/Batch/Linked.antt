-- ===== src/Store/Batch/Linked.antt =====
-- The graph that a batch makes: every edge of its events is created, since the upserts of its ends come
-- before it.
use esgraph.Prelude.{
  ℕ, ◌%◌, ◌^◌, ◌+◌, true, ◌≡◌, refl, sym, subst, ap, ◌∙◌, List, [], ◌∷◌, ◌++◌, append_assoc,
  append-nil, concat, map, length, length-append, All, All-append, All-mono, ok, Option, some,
  arith,
}
use esgraph.Prelude.Int.{ℤ}
use esgraph.Prelude.Text.{Text}
use esgraph.Core.Model.{GraphNode, GraphEdge, EventDetails, NormalisedEvent}
use esgraph.Store.Batch.{IngestStats, Driver, StoreState, nothing_built, ingest_batch}
use esgraph.Store.Batch.Counts.{totals}
use esgraph.Store.Batch.Commits.{IsCommitted, ingest_batch-IsCommitted, ingest_batch-stats}
use esgraph.Store.Batch.Orders.{
  node_orders, edge_orders, event_orders, batch_orders, AreTexts, push_events-Puts,
}
use esgraph.Store.Batch.Reads.{Key}
use esgraph.Store.Batch.Executed.{execute-AreTexts}
use esgraph.Store.Batch.Effects.{
  key, source, target, has, IsDistinct, arrow, Graph, merged, linked, act, execute, obey, obey_all,
  obey_all-append, merged-has, merged-keeps, obey_all-keeps, obey_all-IsDistinct,
}

merged-edges : (k : Key) (g : Graph) → (merged k g).edges ≡ g.edges
unfolding merged
merged-edges k g = ground arith

-- An edge behind the upserts of its ends is created.
linked-edges :
    (edge : GraphEdge) (g : Graph)
    → (linked
        (source edge)
        edge.kind
        (target edge)
        (merged (target edge) (merged (source edge) g))).edges
      ≡ g.edges ++ arrow edge ∷ []
unfolding linked
linked-edges edge g =
    let g1 = merged (source edge) g in
    let src = merged-keeps (target edge) (source edge) g1 (merged-has (source edge) g) in
    let dst = merged-has (target edge) g1 in
    rw (src, dst)
      (ap (λ l. l ++ arrow edge ∷ [])
        (merged-edges (target edge) g1 ∙ merged-edges (source edge) g))

edge_orders-edges :
    (name : Text) (id : ℕ) (edges : List GraphEdge) (g : Graph)
    → (obey_all (edge_orders name id edges) g).edges ≡ g.edges ++ map arrow edges
unfolding obey_all obey act
edge_orders-edges name id [] g = sym (append-nil g.edges)
edge_orders-edges name id (edge ∷ rest) g =
    edge_orders-edges name id rest
      (linked (source edge) edge.kind (target edge) (merged (target edge) (merged (source edge) g)))
    ∙ ap (λ l. l ++ map arrow rest) (linked-edges edge g)
    ∙ append_assoc g.edges (arrow edge ∷ []) (map arrow rest)

node_orders-edges :
    (ts : ℤ) (nodes : List GraphNode) (g : Graph)
    → (obey_all (node_orders ts nodes) g).edges ≡ g.edges
unfolding obey_all obey act
node_orders-edges ts [] g = refl
node_orders-edges ts (node ∷ rest) g =
    node_orders-edges ts rest (merged (key node) g) ∙ merged-edges (key node) g

-- The node of that key is in the graph.
abbrev pub IsIn : Graph → GraphNode → Type 0
unfolding has
IsIn g node = has g.nodes (key node) ≡ true

node_orders-IsIn :
    (ts : ℤ) (nodes : List GraphNode) (g : Graph)
    → All (IsIn (obey_all (node_orders ts nodes) g)) nodes
unfolding obey_all obey act
node_orders-IsIn ts [] g = tt
node_orders-IsIn ts (node ∷ rest) g = (
  obey_all-keeps (node_orders ts rest) (key node) (merged (key node) g) (merged-has (key node) g),
  node_orders-IsIn ts rest (merged (key node) g),
)

abbrev pub edges_of : List NormalisedEvent → List GraphEdge
edges_of events = concat (map (λ (e : NormalisedEvent). e.edges) events)

abbrev pub nodes_of : List NormalisedEvent → List GraphNode
nodes_of events = concat (map (λ (e : NormalisedEvent). e.nodes) events)

event_orders-edges :
    (n : ℕ) (event : NormalisedEvent) (g : Graph)
    → (obey_all (event_orders n event) g).edges ≡ g.edges ++ map arrow event.edges
unfolding obey_all obey act
event_orders-edges n event g =
    let nodes = node_orders event.timestamp_unix_ns event.nodes in
    let edges = edge_orders event.event_name n event.edges in
    ap (λ x. x.edges) (obey_all-append nodes edges g)
    ∙ edge_orders-edges event.event_name n event.edges (obey_all nodes g)
    ∙ ap (λ l. l ++ map arrow event.edges) (node_orders-edges event.timestamp_unix_ns event.nodes g)

event_orders-IsIn :
    (n : ℕ) (event : NormalisedEvent) (g : Graph)
    → All (IsIn (obey_all (event_orders n event) g)) event.nodes
unfolding obey_all obey act
event_orders-IsIn n event g =
    let nodes = node_orders event.timestamp_unix_ns event.nodes in
    let edges = edge_orders event.event_name n event.edges in
    rw (obey_all-append nodes edges g) (
      All-mono (IsIn (obey_all nodes g)) (IsIn (obey_all edges (obey_all nodes g))) event.nodes
        (λ node h. obey_all-keeps edges (key node) (obey_all nodes g) h)
        (node_orders-IsIn event.timestamp_unix_ns event.nodes g))

arrows-append :
    (edges more : List GraphEdge) → map arrow (edges ++ more) ≡ map arrow edges ++ map arrow more
arrows-append [] more = refl
arrows-append (edge ∷ edges) more = ap (λ l. arrow edge ∷ l) (arrows-append edges more)

batch_orders-edges :
    (next : ℕ) (events : List NormalisedEvent) (g : Graph)
    → (obey_all (batch_orders next events) g).edges ≡ g.edges ++ map arrow (edges_of events)
batch_orders-edges next [] g = unfold obey_all in sym (append-nil g.edges)
batch_orders-edges next (event ∷ rest) g =
    let first = event_orders next event in
    let later = batch_orders ((next + 1) % 2 ^ 64) rest in
    ap (λ x. x.edges) (obey_all-append first later g)
    ∙ batch_orders-edges ((next + 1) % 2 ^ 64) rest (obey_all first g)
    ∙ ap (λ l. l ++ map arrow (edges_of rest)) (event_orders-edges next event g)
    ∙ append_assoc g.edges (map arrow event.edges) (map arrow (edges_of rest))
    ∙ ap (λ l. g.edges ++ l) (sym (arrows-append event.edges (edges_of rest)))

batch_orders-IsIn :
    (next : ℕ) (events : List NormalisedEvent) (g : Graph)
    → All (IsIn (obey_all (batch_orders next events) g)) (nodes_of events)
unfolding IsIn
batch_orders-IsIn next [] g = tt
batch_orders-IsIn next (event ∷ rest) g =
    let first = event_orders next event in
    let later = batch_orders ((next + 1) % 2 ^ 64) rest in
    let g1 = obey_all first g in
    rw (obey_all-append first later g) (
      All-append (IsIn (obey_all later g1)) event.nodes (nodes_of rest)
        (All-mono (IsIn g1) (IsIn (obey_all later g1)) event.nodes
          (λ node h. obey_all-keeps later (key node) g1 h) (event_orders-IsIn next event g))
        (batch_orders-IsIn ((next + 1) % 2 ^ 64) rest g1))

edges_of-totals :
    (events : List NormalisedEvent) → length (edges_of events) ≡ (totals events).edges_inserted
unfolding totals
edges_of-totals [] = omega arith
edges_of-totals (event ∷ rest) =
    omega (arith, length-append event.edges (edges_of rest), edges_of-totals rest)

module _ {Database DbError Row : Type 0} (IoError : Type 0) (driver : Driver Database DbError Row)
    (to_json : EventDetails → Option Text) where
  -- A batch runs the texts of its orders, which make this graph of the other.
  pub record Builds (events : List NormalisedEvent) (s s' : StoreState Database)
      (stats : IngestStats) (g : Graph) : Type 0 where
    pub committed : IsCommitted IoError driver to_json events s s' stats
    pub texts :
        AreTexts DbError IoError to_json
          (batch_orders s.next_ingest_id events)
          committed.built.statements
    pub graph : Graph
    pub executed : execute committed.built.statements g ≡ some graph
    pub edges : graph.edges ≡ g.edges ++ map arrow (edges_of events)
    pub counted : stats.edges_inserted ≡ length (edges_of events)
    pub nodes : All (IsIn graph) (nodes_of events)
    pub distinct : IsDistinct graph.nodes

  -- The statements that a batch runs are, in order, the texts of an audit row, the upserts of the nodes
  -- and, for each edge, the upserts of both its ends and its creation, event by event. Read word by
  -- word as Cypher and executed in turn, they add to a graph without repeated nodes the relationships
  -- of all edges of the events, from source to target and of their kinds, in order and as many as the
  -- batch counts, and leave in it every node of the events and no node twice.
  pub ingest_batch-Builds :
      (event : NormalisedEvent) (rest : List NormalisedEvent) (s : StoreState Database) (g : Graph)
      {stats : IngestStats}
      → IsDistinct g.nodes
      → (ingest_batch {IoError = IoError} driver to_json (event ∷ rest) s).0 ≡ ok stats
      → Builds
          (event ∷ rest)
          s
          (ingest_batch {IoError = IoError} driver to_json (event ∷ rest) s).1
          stats
          g
  ingest_batch-Builds event rest s g distinct h =
      let c = ingest_batch-IsCommitted IoError driver to_json event rest s h in
      let events : List NormalisedEvent = event ∷ rest in
      let orders = batch_orders s.next_ingest_id events in
      let put =
        push_events-Puts DbError IoError to_json s.next_ingest_id nothing_built events c.is_built in
      let texts = subst (AreTexts DbError IoError to_json orders) (sym put.behind) put.are in
      record {
        committed = c;
        texts = texts;
        graph = obey_all orders g;
        executed = execute-AreTexts DbError IoError to_json orders c.built.statements g texts;
        edges = batch_orders-edges s.next_ingest_id events g;
        counted =
            ap (λ t. t.edges_inserted) (ingest_batch-stats IoError driver to_json events s h)
            ∙ sym (edges_of-totals events);
        nodes = batch_orders-IsIn s.next_ingest_id events g;
        distinct = obey_all-IsDistinct orders g distinct;
      }
