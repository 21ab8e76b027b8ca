-- ===== src/Store/Batch/Orders.antt =====
-- The statements of a batch as orders to the database: what each is about, apart from its text.
use esgraph.Prelude.{
  ℕ, ◌+◌, ◌%◌, ◌^◌, ◌≡◌, refl, sym, ap, ◌∙◌, List, [], ◌∷◌, ◌++◌, append_assoc, append-nil, Outcome,
  ok, ◌>>=◌, bind-eq-ok, ok-injective, Option,
}
use esgraph.Prelude.Int.{ℤ}
use esgraph.Prelude.Text.{Text}
use esgraph.Core.Model.{GraphNode, GraphEdge, EventDetails, NormalisedEvent}
use esgraph.Store.Statements.{
  StoreError, node_label, merge_node_stmt, merge_stub_node_stmt, insert_ingest_event_stmt,
  insert_edge_stmt, ensure_edge_endpoints,
}
use esgraph.Store.Batch.{
  Building, push, add_node, add_edge, push_nodes, push_edges, push_event, push_events,
}
use esgraph.Store.Batch.Counts.{push_events-cons}

-- The audit row of an event, the upsert of a node, that of a bare key, and the creation of an edge. A
-- table is named by the kind that `node_label` maps to it.
pub data Order : Type 0 where
  audit : ℕ → NormalisedEvent → Order
  upsert : GraphNode → ℤ → Order
  stub : Text → Text → Order
  link : GraphEdge → Text → ℕ → Order

abbrev pub node_orders : ℤ → List GraphNode → List Order
node_orders ts [] = []
node_orders ts (node ∷ rest) = upsert node ts ∷ node_orders ts rest

abbrev pub edge_orders : Text → ℕ → List GraphEdge → List Order
edge_orders name id [] = []
edge_orders name id (edge ∷ rest) =
    stub edge.src_kind edge.src_id
    ∷ stub edge.dst_kind edge.dst_id
    ∷ link edge name id
    ∷ edge_orders name id rest

abbrev pub event_orders : ℕ → NormalisedEvent → List Order
event_orders id event =
    audit id event ∷ node_orders event.timestamp_unix_ns event.nodes
    ++ edge_orders event.event_name id event.edges

abbrev pub batch_orders : ℕ → List NormalisedEvent → List Order
batch_orders next [] = []
batch_orders next (event ∷ rest) =
    event_orders next event ++ batch_orders ((next + 1) % 2 ^ 64) rest

module _ (DbError IoError : Type 0) (to_json : EventDetails → Option Text) where
  -- The text of an order.
  unfoldable pub statement : Order → Outcome (StoreError DbError IoError) Text
  statement (audit id event) = ok (insert_ingest_event_stmt to_json id event)
  statement (upsert node ts) = merge_node_stmt node ts
  statement (stub kind id) = do label ← node_label kind; ok (merge_stub_node_stmt label id)
  statement (link edge name id) = insert_edge_stmt edge name id

  -- These are the texts of the orders, one each.
  abbrev pub AreTexts : List Order → List Text → Type 0
  AreTexts [] ss = ss ≡ []
  AreTexts (o ∷ os) [] = ⊥
  AreTexts (o ∷ os) (s ∷ ss) = (statement o ≡ ok s) × AreTexts os ss

  AreTexts-append :
      (os : List Order) (ss : List Text) (ps : List Order) (ts : List Text)
      → AreTexts os ss
      → AreTexts ps ts
      → AreTexts (os ++ ps) (ss ++ ts)
  AreTexts-append [] [] ps ts h k = k
  AreTexts-append [] (s ∷ ss) ps ts h k = absurd (cc)
  AreTexts-append (o ∷ os) [] ps ts h k = elim h [ ]
  AreTexts-append (o ∷ os) (s ∷ ss) ps ts h k = (h.0, AreTexts-append os ss ps ts h.1 k)

  -- What a step of the building puts behind the statements: the texts of these orders.
  pub record Puts (os : List Order) (b b' : Building) : Type 0 where
    pub texts : List Text
    pub are : AreTexts os texts
    pub behind : b'.statements ≡ b.statements ++ texts

  Puts-refl : (b : Building) → Puts [] b b
  Puts-refl b = record { texts = []; are = refl; behind = sym (append-nil b.statements) }

  Puts-trans :
      (os ps : List Order) (b c d : Building) → Puts os b c → Puts ps c d → Puts (os ++ ps) b d
  Puts-trans os ps b c d h k = record {
    texts = h.texts ++ k.texts;
    are = AreTexts-append os h.texts ps k.texts h.are k.are;
    behind = k.behind ∙ ap (λ l. l ++ k.texts) h.behind ∙ append_assoc b.statements h.texts k.texts;
  }

  push_nodes-Puts :
      (ts : ℤ) (b : Building) (nodes : List GraphNode) {b' : Building}
      → push_nodes {DbError = DbError} {IoError = IoError} ts b nodes ≡ ok b'
      → Puts (node_orders ts nodes) b b'
  unfolding push_nodes statement
  push_nodes-Puts ts b [] {b'} h = rw (sym (ok-injective h)) (Puts-refl b)
  push_nodes-Puts ts b (node ∷ rest) {b'} h =
      let (s, made, later) = bind-eq-ok (merge_node_stmt node ts) _ h in
      Puts-trans (upsert node ts ∷ []) (node_orders ts rest) b (add_node b s) b'
        (record { texts = s ∷ []; are = (made, refl); behind = refl })
        (push_nodes-Puts ts (add_node b s) rest later)

  statement-stub :
      (kind id : Text) {label : Text}
      → node_label {E = StoreError DbError IoError} kind ≡ ok label
      → statement (stub kind id) ≡ ok (merge_stub_node_stmt label id)
  unfolding statement
  statement-stub kind id h = rw h

  endpoints-AreTexts :
      (edge : GraphEdge) {stubs : List Text}
      → ensure_edge_endpoints {DbError = DbError} {IoError = IoError} edge ≡ ok stubs
      → AreTexts (stub edge.src_kind edge.src_id ∷ stub edge.dst_kind edge.dst_id ∷ []) stubs
  unfolding ensure_edge_endpoints
  endpoints-AreTexts edge h =
      let (src, is_src, more) = bind-eq-ok (node_label edge.src_kind) _ h in
      let (dst, is_dst, done) = bind-eq-ok (node_label edge.dst_kind) _ more in
      rw (sym (ok-injective done)) (
        statement-stub edge.src_kind edge.src_id is_src,
        (statement-stub edge.dst_kind edge.dst_id is_dst, refl),
      )

  push_edges-Puts :
      (name : Text) (id : ℕ) (b : Building) (edges : List GraphEdge) {b' : Building}
      → push_edges {DbError = DbError} {IoError = IoError} name id b edges ≡ ok b'
      → Puts (edge_orders name id edges) b b'
  unfolding push_edges statement
  push_edges-Puts name id b [] h = rw (sym (ok-injective h)) (Puts-refl b)
  push_edges-Puts name id b (edge ∷ rest) {b'} h =
      let (stubs, stubbed, more) = bind-eq-ok (ensure_edge_endpoints edge) _ h in
      let (s, made, later) = bind-eq-ok (insert_edge_stmt edge name id) _ more in
      let ends = stub edge.src_kind edge.src_id ∷ stub edge.dst_kind edge.dst_id ∷ [] in
      Puts-trans (ends ++ link edge name id ∷ []) (edge_orders name id rest) b (add_edge b stubs s)
        b'
        (record {
          texts = stubs ++ s ∷ [];
          are =
              AreTexts-append ends stubs (link edge name id ∷ []) (s ∷ [])
                (endpoints-AreTexts edge stubbed) (made, refl);
          behind = refl;
        })
        (push_edges-Puts name id (add_edge b stubs s) rest later)

  push_event-Puts :
      (id : ℕ) (b : Building) (event : NormalisedEvent) {b' : Building}
      → push_event {DbError = DbError} {IoError = IoError} to_json id b event ≡ ok b'
      → Puts (event_orders id event) b b'
  unfolding push_event statement
  push_event-Puts id b event {b'} h =
      let first = insert_ingest_event_stmt to_json id event ∷ [] in
      let ts = event.timestamp_unix_ns in
      let (b1, nodes, more) = bind-eq-ok (push_nodes ts (push b first) event.nodes) _ h in
      let (b2, edges, done) = bind-eq-ok (push_edges event.event_name id b1 event.edges) _ more in
      let linked = push_edges-Puts event.event_name id b1 event.edges edges in
      let noded = push_nodes-Puts ts (push b first) event.nodes nodes in
      let started : Puts (audit id event ∷ []) b (push b first) = record {
        texts = first;
        are = (refl, refl);
        behind = refl;
      } in
      let all =
        Puts-trans (audit id event ∷ node_orders ts event.nodes)
          (edge_orders event.event_name id event.edges) b b1 b2
          (Puts-trans (audit id event ∷ []) (node_orders ts event.nodes) b (push b first) b1 started
            noded)
          linked in
      record {
        texts = all.texts;
        are = all.are;
        behind = ap (λ x. x.statements) (sym (ok-injective done)) ∙ all.behind;
      }

  -- The statements of a batch are the texts of its orders.
  pub push_events-Puts :
      (next : ℕ) (b : Building) (events : List NormalisedEvent) {b' : Building}
      → (push_events {DbError = DbError} {IoError = IoError} to_json next b events).0 ≡ ok b'
      → Puts (batch_orders next events) b b'
  push_events-Puts next b [] h = unfold push_events in rw (sym (ok-injective h)) (Puts-refl b)
  push_events-Puts next b (event ∷ rest) {b'} h =
      let (b1, first, later) = push_events-cons to_json next b event rest h in
      Puts-trans (event_orders next event) (batch_orders ((next + 1) % 2 ^ 64) rest) b b1 b'
        (push_event-Puts next b event first)
        (push_events-Puts ((next + 1) % 2 ^ 64) b1 rest (rw later at h))
