-- ===== src/Store/Batch/Writable.antt =====
-- The events that the loops of `ingest_batch` can write, and that they write no others.
use esgraph.Prelude.{
  false, ℕ, ◌+◌, ◌%◌, ◌^◌, ◌≡◌, ◌≢◌, refl, ap, ◌∙◌, ◌⊎◌, inl, inr, List, [], ◌∷◌, All, ok,
  bind-eq-ok, Option, arith, is_empty,
}
use esgraph.Prelude.Int.{ℤ}
use esgraph.Prelude.Text.{Text, text, match_text-All}
use esgraph.Core.Model.{GraphNode, process, file, socket, GraphEdge, EventDetails, NormalisedEvent}
use esgraph.Store.Statements.{
  StoreError, labels, node_label, merge_process_stmt, merge_node_stmt, insert_ingest_event_stmt,
  insert_edge_stmt, ensure_edge_endpoints,
}
use esgraph.Store.Batch.{
  Building, push, add_node, add_edge, add_event, push_nodes, push_edges, push_event, push_events,
}
use esgraph.Store.Batch.Counts.{push_events-cons}

-- A process node has an audit token.
abbrev pub HasToken : GraphNode → Type 0
HasToken (process p) = p.identity.audit_token_hex ≢ []
HasToken (file _) = Unit
HasToken (socket _) = Unit

-- One of the kinds that `GraphNode::kind_label` gives.
abbrev pub IsKind : Text → Type 0
IsKind kind = (kind ≡ text "process") ⊎ (kind ≡ text "file") ⊎ (kind ≡ text "socket")

abbrev pub HasKinds : GraphEdge → Type 0
HasKinds edge = IsKind edge.src_kind × IsKind edge.dst_kind

-- An event that the store can write.
pub record IsIngestible (event : NormalisedEvent) : Type 0 where
  pub tokens : All HasToken event.nodes
  pub kinds : All HasKinds event.edges

node_label_total :
    {E : Type 0} (kind : Text) → IsKind kind → (label : Text) × (node_label {E = E} kind ≡ ok label)
unfolding node_label labels
node_label_total kind (inl e) = (text "Process", rw e)
node_label_total kind (inr (inl e)) = (text "File", rw e)
node_label_total kind (inr (inr e)) = (text "Socket", rw e)

pub node_label-IsKind :
    {E : Type 0} (kind : Text) {label : Text} → node_label {E = E} kind ≡ ok label → IsKind kind
unfolding node_label labels
node_label-IsKind kind {label} h =
    match_text-All (λ t _. IsKind t) kind {a = label} labels
      (inl refl, (inr (inl refl), (inr (inr refl), tt))) (ground arith)

module _ {DbError IoError : Type 0} where
  merge_node_stmt_total :
      (node : GraphNode) (ts : ℤ)
      → HasToken node
      → (s : Text) × (merge_node_stmt {DbError = DbError} {IoError = IoError} node ts ≡ ok s)
  unfolding merge_node_stmt merge_process_stmt
  merge_node_stmt_total (process p) ts h =
      let filled : is_empty p.identity.audit_token_hex ≡ false = ground arith in
      rw (filled, merge_process_stmt) (_, refl)
  merge_node_stmt_total (file f) ts h = (_, refl)
  merge_node_stmt_total (socket f) ts h = (_, refl)

  merge_node_stmt-HasToken :
      (node : GraphNode) (ts : ℤ) {s : Text}
      → merge_node_stmt {DbError = DbError} {IoError = IoError} node ts ≡ ok s
      → HasToken node
  unfolding merge_node_stmt merge_process_stmt
  merge_node_stmt-HasToken (process p) ts h = ground arith
  merge_node_stmt-HasToken (file f) ts h = tt
  merge_node_stmt-HasToken (socket f) ts h = tt

  push_nodes_total :
      (ts : ℤ) (b : Building) (nodes : List GraphNode)
      → All HasToken nodes
      → (b' : Building) × (push_nodes {DbError = DbError} {IoError = IoError} ts b nodes ≡ ok b')
  unfolding push_nodes
  push_nodes_total ts b [] h = (b, refl)
  push_nodes_total ts b (node ∷ rest) h =
      let (s, e) = merge_node_stmt_total node ts h.0 in
      let (b', later) = push_nodes_total ts (add_node b s) rest h.1 in (b', rw e later)

  push_nodes-HasToken :
      (ts : ℤ) (b : Building) (nodes : List GraphNode) {b' : Building}
      → push_nodes {DbError = DbError} {IoError = IoError} ts b nodes ≡ ok b'
      → All HasToken nodes
  unfolding push_nodes
  push_nodes-HasToken ts b [] h = tt
  push_nodes-HasToken ts b (node ∷ rest) h =
      let (s, made, later) = bind-eq-ok (merge_node_stmt node ts) _ h in
      (merge_node_stmt-HasToken node ts made, push_nodes-HasToken ts (add_node b s) rest later)

  push_edge_total :
      (name : Text) (id : ℕ) (edge : GraphEdge)
      → HasKinds edge
      → (stubs : List Text) × (s : Text) × (ensure_edge_endpoints {DbError = DbError}
            {IoError = IoError} edge
          ≡ ok stubs)
        × (insert_edge_stmt {DbError = DbError} {IoError = IoError} edge name id ≡ ok s)
  unfolding ensure_edge_endpoints insert_edge_stmt
  push_edge_total name id edge h =
      let (src, hs) = node_label_total {E = StoreError DbError IoError} edge.src_kind h.0 in
      let (dst, hd) = node_label_total {E = StoreError DbError IoError} edge.dst_kind h.1 in
      rw (hs, hd) (_, _, refl, refl)

  push_edges_total :
      (name : Text) (id : ℕ) (b : Building) (edges : List GraphEdge)
      → All HasKinds edges
      → (b' : Building) × (push_edges {DbError = DbError} {IoError = IoError} name id b edges
          ≡ ok b')
  unfolding push_edges
  push_edges_total name id b [] h = (b, refl)
  push_edges_total name id b (edge ∷ rest) h =
      let (stubs, s, stubbed, made) = push_edge_total name id edge h.0 in
      let (b', later) = push_edges_total name id (add_edge b stubs s) rest h.1 in
      (b', rw (stubbed, made) later)

  insert_edge_stmt-HasKinds :
      (edge : GraphEdge) (name : Text) (id : ℕ) {s : Text}
      → insert_edge_stmt {DbError = DbError} {IoError = IoError} edge name id ≡ ok s
      → HasKinds edge
  unfolding insert_edge_stmt
  insert_edge_stmt-HasKinds edge name id h =
      let (src, hs, rest) = bind-eq-ok (node_label edge.src_kind) _ h in
      let (dst, hd, made) = bind-eq-ok (node_label edge.dst_kind) _ rest in
      (node_label-IsKind edge.src_kind hs, node_label-IsKind edge.dst_kind hd)

  push_edges-HasKinds :
      (name : Text) (id : ℕ) (b : Building) (edges : List GraphEdge) {b' : Building}
      → push_edges {DbError = DbError} {IoError = IoError} name id b edges ≡ ok b'
      → All HasKinds edges
  unfolding push_edges
  push_edges-HasKinds name id b [] h = tt
  push_edges-HasKinds name id b (edge ∷ rest) h =
      let (stubs, made, more) = bind-eq-ok (ensure_edge_endpoints edge) _ h in
      let (s, inserted, later) = bind-eq-ok (insert_edge_stmt edge name id) _ more in
      (
        insert_edge_stmt-HasKinds edge name id inserted,
        push_edges-HasKinds name id (add_edge b stubs s) rest later,
      )

  module _ (to_json : EventDetails → Option Text) where
    push_event_total :
        (id : ℕ) (b : Building) (event : NormalisedEvent)
        → IsIngestible event
        → (b' : Building) × (push_event {DbError = DbError} {IoError = IoError} to_json id b event
            ≡ ok b')
    unfolding push_event
    push_event_total id b event h =
        let started = push b (insert_ingest_event_stmt to_json id event ∷ []) in
        let (b1, nodes) = push_nodes_total event.timestamp_unix_ns started event.nodes h.tokens in
        let (b2, edges) = push_edges_total event.event_name id b1 event.edges h.kinds in
        (add_event b2, rw (nodes, edges))

    push_event-IsIngestible :
        (id : ℕ) (b : Building) (event : NormalisedEvent) {b' : Building}
        → push_event {DbError = DbError} {IoError = IoError} to_json id b event ≡ ok b'
        → IsIngestible event
    unfolding push_event
    push_event-IsIngestible id b event h =
        let started = push b (insert_ingest_event_stmt to_json id event ∷ []) in
        let (b1, nodes, more) =
          bind-eq-ok (push_nodes event.timestamp_unix_ns started event.nodes) _ h in
        let (b2, edges, done) = bind-eq-ok (push_edges event.event_name id b1 event.edges) _ more in
        record {
          tokens = push_nodes-HasToken event.timestamp_unix_ns started event.nodes nodes;
          kinds = push_edges-HasKinds event.event_name id b1 event.edges edges;
        }

    push_events_step :
        (next : ℕ) (b : Building) (event : NormalisedEvent) (rest : List NormalisedEvent)
        {b1 : Building}
        → push_event {DbError = DbError} {IoError = IoError} to_json next b event ≡ ok b1
        → push_events {DbError = DbError} {IoError = IoError} to_json next b (event ∷ rest)
          ≡ push_events to_json ((next + 1) % 2 ^ 64) b1 rest
    unfolding push_events
    push_events_step next b event rest first = rw (first, push_events)

    pub push_events_total :
        (next : ℕ) (b : Building) (events : List NormalisedEvent)
        → All IsIngestible events
        → (b' : Building) × ((push_events {DbError = DbError} {IoError = IoError} to_json next b
              events).0
            ≡ ok b')
    push_events_total next b [] h = (b, unfold push_events in refl)
    push_events_total next b (event ∷ rest) h =
        let (b1, first) = push_event_total next b event h.0 in
        let (b', later) = push_events_total ((next + 1) % 2 ^ 64) b1 rest h.1 in
        (b', ap (λ r. r.0) (push_events_step next b event rest first) ∙ later)

    pub push_events-IsIngestible :
        (next : ℕ) (b : Building) (events : List NormalisedEvent) {b' : Building}
        → (push_events {DbError = DbError} {IoError = IoError} to_json next b events).0 ≡ ok b'
        → All IsIngestible events
    push_events-IsIngestible next b [] h = tt
    push_events-IsIngestible next b (event ∷ rest) h =
        let (b1, first, later) = push_events-cons to_json next b event rest h in
        (
          push_event-IsIngestible next b event first,
          push_events-IsIngestible ((next + 1) % 2 ^ 64) b1 rest (rw later at h),
        )
