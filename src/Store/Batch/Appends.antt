-- ===== src/Store/Batch/Appends.antt =====
-- Two batches against one that holds the events of both. A driver runs a script of statements in their
-- order, so two scripts one after the other do what their join does.
use esgraph.Prelude.{
  ℕ, ◌+◌, ◌%◌, ◌^◌, ◌<◌, ◌≡◌, refl, sym, ap, ◌∙◌, List, [], ◌∷◌, ◌++◌, append_assoc, append-nil,
  length, ok, bind-eq-ok, ok-injective, Option, arith,
}
use esgraph.Prelude.Int.{ℤ}
use esgraph.Prelude.Text.{Text, join}
use esgraph.Core.Model.{GraphNode, GraphEdge, EventDetails, NormalisedEvent}
use esgraph.Store.Statements.{
  merge_node_stmt, insert_ingest_event_stmt, insert_edge_stmt, ensure_edge_endpoints,
}
use esgraph.Store.Batch.{
  Building, nothing_built, push, add_node, add_edge, add_event, push_nodes, push_edges, push_event,
  push_events,
}
use esgraph.Store.Batch.Counts.{add_stats, push_events-cons}

-- What has been built behind what was built before.
unfoldable pub behind : Building → Building → Building
unfolding add_stats
behind a b = record { statements = a.statements ++ b.statements; stats = add_stats a.stats b.stats }

push-behind : (a b : Building) (ss : List Text) → push (behind a b) ss ≡ behind a (push b ss)
unfolding behind add_stats
push-behind a b ss = ground (arith, append_assoc a.statements b.statements ss)

add_node-behind : (a b : Building) (s : Text) → add_node (behind a b) s ≡ behind a (add_node b s)
unfolding behind add_stats
add_node-behind a b s = ground (arith, append_assoc a.statements b.statements (s ∷ []))

add_edge-behind :
    (a b : Building) (stubs : List Text) (s : Text)
    → add_edge (behind a b) stubs s ≡ behind a (add_edge b stubs s)
unfolding behind add_stats
add_edge-behind a b stubs s =
    ground (arith, append_assoc a.statements b.statements (stubs ++ s ∷ []))

add_event-behind : (a b : Building) → add_event (behind a b) ≡ behind a (add_event b)
unfolding behind add_stats
add_event-behind a b = ground arith

module _ {DbError IoError : Type 0} (to_json : EventDetails → Option Text) where
  -- An event that is built is followed by the others.
  push_events-after :
      (next : ℕ) (b : Building) (event : NormalisedEvent) (rest : List NormalisedEvent)
      {b1 : Building}
      → push_event {DbError = DbError} {IoError = IoError} to_json next b event ≡ ok b1
      → push_events {DbError = DbError} {IoError = IoError} to_json next b (event ∷ rest)
        ≡ push_events to_json ((next + 1) % 2 ^ 64) b1 rest
  unfolding push_events
  push_events-after next b event rest h = ground arith

  push_events-nil :
      (next : ℕ) (b : Building) {b' : Building} {n : ℕ}
      → push_events {DbError = DbError} {IoError = IoError} to_json next b [] ≡ (ok b', n)
      → (b' ≡ b) × (n ≡ next)
  unfolding push_events
  push_events-nil next b h = ground arith

  -- A list of events is built as its front, and behind it its back.
  pub push_events-append :
      (next : ℕ) (b : Building) (xs ys : List NormalisedEvent) {b' : Building} {n : ℕ}
      → push_events {DbError = DbError} {IoError = IoError} to_json next b xs ≡ (ok b', n)
      → push_events {DbError = DbError} {IoError = IoError} to_json next b (xs ++ ys)
        ≡ push_events to_json n b' ys
  push_events-append next b [] ys h = let (same, at_n) = push_events-nil next b h in rw (same, at_n)
  push_events-append next b (event ∷ rest) ys h =
      let (b1, first, later) = push_events-cons to_json next b event rest (ap (λ p. p.0) h) in
      push_events-after next b event (rest ++ ys) first
      ∙ push_events-append ((next + 1) % 2 ^ 64) b1 rest ys (sym later ∙ h)

module _ {DbError IoError : Type 0} (a : Building) where
  push_nodes-behind :
      (ts : ℤ) (b : Building) (nodes : List GraphNode) {b' : Building}
      → push_nodes {DbError = DbError} {IoError = IoError} ts b nodes ≡ ok b'
      → push_nodes {DbError = DbError} {IoError = IoError} ts (behind a b) nodes ≡ ok (behind a b')
  unfolding push_nodes
  push_nodes-behind ts b [] h = ap (λ x. ok (behind a x)) (ok-injective h)
  push_nodes-behind ts b (node ∷ rest) h =
      let (s, made, later) = bind-eq-ok (merge_node_stmt node ts) _ h in
      rw (made, add_node-behind a b s) (push_nodes-behind ts (add_node b s) rest later)

  push_edges-behind :
      (name : Text) (id : ℕ) (b : Building) (edges : List GraphEdge) {b' : Building}
      → push_edges {DbError = DbError} {IoError = IoError} name id b edges ≡ ok b'
      → push_edges {DbError = DbError} {IoError = IoError} name id (behind a b) edges
        ≡ ok (behind a b')
  unfolding push_edges
  push_edges-behind name id b [] h = ap (λ x. ok (behind a x)) (ok-injective h)
  push_edges-behind name id b (edge ∷ rest) h =
      let (stubs, stubbed, more) = bind-eq-ok (ensure_edge_endpoints edge) _ h in
      let (s, made, later) = bind-eq-ok (insert_edge_stmt edge name id) _ more in
      ground (
        arith,
        add_edge-behind a b stubs s,
        push_edges-behind name id (add_edge b stubs s) rest later,
      )

  module _ (to_json : EventDetails → Option Text) where
    push_event-behind :
        (id : ℕ) (b : Building) (event : NormalisedEvent) {b' : Building}
        → push_event {DbError = DbError} {IoError = IoError} to_json id b event ≡ ok b'
        → push_event {DbError = DbError} {IoError = IoError} to_json id (behind a b) event
          ≡ ok (behind a b')
    unfolding push_event
    push_event-behind id b event h =
        let first = insert_ingest_event_stmt to_json id event ∷ [] in
        let (b1, nodes, more) =
          bind-eq-ok (push_nodes event.timestamp_unix_ns (push b first) event.nodes) _ h in
        let (b2, edges, done) = bind-eq-ok (push_edges event.event_name id b1 event.edges) _ more in
        rw
          (
            push-behind a b first,
            push_nodes-behind event.timestamp_unix_ns (push b first) event.nodes nodes,
            push_edges-behind event.event_name id b1 event.edges edges,
            add_event-behind a b2,
          )
          (ap (λ x. ok (behind a x)) (ok-injective done))

    pub push_events-behind :
        (next : ℕ) (b : Building) (events : List NormalisedEvent) {b' : Building} {n : ℕ}
        → push_events {DbError = DbError} {IoError = IoError} to_json next b events ≡ (ok b', n)
        → push_events {DbError = DbError} {IoError = IoError} to_json next (behind a b) events
          ≡ (ok (behind a b'), n)
    push_events-behind next b [] h = unfold push_events in ground arith
    push_events-behind next b (event ∷ rest) h =
        let (b1, first, later) = push_events-cons to_json next b event rest (ap (λ p. p.0) h) in
        push_events-after to_json next (behind a b) event rest
          (push_event-behind next b event first)
        ∙ push_events-behind ((next + 1) % 2 ^ 64) b1 rest (sym later ∙ h)

pub join-append :
    (sep : Text) (a b : List Text)
    → 0 < length a
    → 0 < length b
    → join sep (a ++ b) ≡ join sep a ++ (sep ++ join sep b)
unfolding join
join-append sep (s ∷ []) (t ∷ b) has_a has_b = refl
join-append sep (s ∷ t ∷ a) b has_a has_b =
    rw (join-append sep (t ∷ a) b (omega arith) has_b) (simp append_assoc)
join-append sep _ _ has_a has_b = ground arith

pub behind-nothing_built : (a : Building) → behind a nothing_built ≡ a
unfolding behind add_stats
behind-nothing_built a = ground (arith, append-nil a.statements)
