-- ===== src/Store/Batch/Repeats.antt =====
-- A batch that is ingested again, such as a fixture that is replayed: its nodes are there already.
use esgraph.Prelude.{
  ℕ, ◌%◌, ◌^◌, ◌+◌, true, ◌≡◌, refl, sym, subst, ap, ap₂, ◌∙◌, List, [], ◌∷◌, ◌++◌, append_assoc,
  All, if◌then◌else◌, ok, Option, some, arith,
}
use esgraph.Prelude.Text.{Text}
use esgraph.Core.Model.{GraphEdge, EventDetails, NormalisedEvent}
use esgraph.Store.Batch.{IngestStats, Driver, StoreState, ingest_batch}
use esgraph.Store.Batch.Commits.{ingest_batch-stats}
use esgraph.Store.Batch.Orders.{
  Order, audit, upsert, stub, link, node_orders, edge_orders, event_orders, batch_orders,
}
use esgraph.Store.Batch.Reads.{Key}
use esgraph.Store.Batch.Executed.{execute-AreTexts}
use esgraph.Store.Batch.Effects.{
  key, has, IsDistinct, Graph, merged, linked, act, obey, obey_all, same_key_refl,
}
use esgraph.Store.Batch.Linked.{Builds, ingest_batch-Builds}

-- The keys that orders merge into the graph.
abbrev keys_of : Order → List Key
keys_of (audit n event) = []
keys_of (upsert node ts) = key node ∷ []
keys_of (stub kind name) = (kind, name) ∷ []
keys_of (link edge name n) = []

abbrev keys : List Order → List Key
keys [] = []
keys (o ∷ os) = keys_of o ++ keys os

keys-append : (os ps : List Order) → keys (os ++ ps) ≡ keys os ++ keys ps
keys-append [] ps = refl
keys-append (o ∷ os) ps =
    ap (◌++◌ (keys_of o)) (keys-append os ps) ∙ sym (append_assoc (keys_of o) (keys os) (keys ps))

-- They are the same under other ids.
keys-edge_orders :
    (name : Text) (m n : ℕ) (edges : List GraphEdge)
    → keys (edge_orders name m edges) ≡ keys (edge_orders name n edges)
keys-edge_orders name m n [] = refl
keys-edge_orders name m n (edge ∷ rest) =
    ap (λ ks. (edge.src_kind, edge.src_id) ∷ (edge.dst_kind, edge.dst_id) ∷ ks)
      (keys-edge_orders name m n rest)

keys-event_orders :
    (m n : ℕ) (event : NormalisedEvent) → keys (event_orders m event) ≡ keys (event_orders n event)
keys-event_orders m n event =
    let nodes = node_orders event.timestamp_unix_ns event.nodes in
    keys-append nodes (edge_orders event.event_name m event.edges)
    ∙ ap (◌++◌ (keys nodes)) (keys-edge_orders event.event_name m n event.edges)
    ∙ sym (keys-append nodes (edge_orders event.event_name n event.edges))

keys-batch_orders :
    (m n : ℕ) (events : List NormalisedEvent)
    → keys (batch_orders m events) ≡ keys (batch_orders n events)
keys-batch_orders m n [] = refl
keys-batch_orders m n (event ∷ rest) =
    keys-append (event_orders m event) (batch_orders ((m + 1) % 2 ^ 64) rest)
    ∙ ap₂ ◌++◌ (keys-event_orders m n event)
        (keys-batch_orders ((m + 1) % 2 ^ 64) ((n + 1) % 2 ^ 64) rest)
    ∙ sym (keys-append (event_orders n event) (batch_orders ((n + 1) % 2 ^ 64) rest))

-- A key among others, put before them where it is missing.
abbrev with_key : Key → List Key → List Key
unfolding has
with_key k ns = if has ns k then ns else k ∷ ns

unfoldable merge_all : List Key → List Key → List Key
unfolding with_key
merge_all [] ns = ns
merge_all (k ∷ ks) ns = merge_all ks (with_key k ns)

merge_all-append : (ks ls ns : List Key) → merge_all (ks ++ ls) ns ≡ merge_all ls (merge_all ks ns)
unfolding merge_all
merge_all-append [] ls ns = refl
merge_all-append (k ∷ ks) ls ns = merge_all-append ks ls (with_key k ns)

obey-nodes : (o : Order) (g : Graph) → (obey o g).nodes ≡ merge_all (keys_of o) g.nodes
unfolding obey act merged linked merge_all with_key
obey-nodes (audit n event) g = refl
obey-nodes (upsert node ts) g = ground arith
obey-nodes (stub kind name) g = ground arith
obey-nodes (link edge name n) g = ground arith

obey_all-nodes : (os : List Order) (g : Graph) → (obey_all os g).nodes ≡ merge_all (keys os) g.nodes
unfolding obey_all merge_all
obey_all-nodes [] g = refl
obey_all-nodes (o ∷ os) g =
    obey_all-nodes os (obey o g)
    ∙ ap (merge_all (keys os)) (obey-nodes o g)
    ∙ sym (merge_all-append (keys_of o) (keys os) g.nodes)

with_key-has : (k : Key) (ns : List Key) → has (with_key k ns) k ≡ true
unfolding has with_key
with_key-has k ns = ground (arith, same_key_refl k)

with_key-keeps : (k a : Key) (ns : List Key) → has ns a ≡ true → has (with_key k ns) a ≡ true
unfolding has with_key
with_key-keeps k a ns h = ground arith

merge_all-keeps :
    (ks : List Key) (a : Key) (ns : List Key) → has ns a ≡ true → has (merge_all ks ns) a ≡ true
unfolding merge_all
merge_all-keeps [] a ns h = h
merge_all-keeps (k ∷ ks) a ns h = merge_all-keeps ks a (with_key k ns) (with_key-keeps k a ns h)

abbrev IsKnown : List Key → Key → Type 0
unfolding has
IsKnown ns k = has ns k ≡ true

merge_all-IsKnown : (ks ns : List Key) → All (IsKnown (merge_all ks ns)) ks
unfolding merge_all IsKnown
merge_all-IsKnown [] ns = tt
merge_all-IsKnown (k ∷ ks) ns =
    (merge_all-keeps ks k (with_key k ns) (with_key-has k ns), merge_all-IsKnown ks (with_key k ns))

-- Keys that are known change nothing.
merge_all_known : (ks ns : List Key) → All (IsKnown ns) ks → merge_all ks ns ≡ ns
unfolding merge_all IsKnown with_key
merge_all_known [] ns h = refl
merge_all_known (k ∷ ks) ns h = rw (h.0) (merge_all_known ks ns h.1)

-- The orders of the same events under other ids add no node.
again-nodes :
    (m n : ℕ) (events : List NormalisedEvent) (g : Graph)
    → (obey_all (batch_orders n events) (obey_all (batch_orders m events) g)).nodes
      ≡ (obey_all (batch_orders m events) g).nodes
again-nodes m n events g =
    let ks = keys (batch_orders m events) in
    obey_all-nodes (batch_orders n events) (obey_all (batch_orders m events) g)
    ∙ ap₂ merge_all (keys-batch_orders n m events) (obey_all-nodes (batch_orders m events) g)
    ∙ merge_all_known ks (merge_all ks g.nodes) (merge_all-IsKnown ks g.nodes)
    ∙ sym (obey_all-nodes (batch_orders m events) g)

module _ {Database DbError Row : Type 0} (IoError : Type 0) (driver : Driver Database DbError Row)
    (to_json : EventDetails → Option Text) where
  -- What a batch does that is ingested twice.
  pub record Repeats (events : List NormalisedEvent) (s t u : StoreState Database)
      (first second : IngestStats) (g : Graph) : Type 0 where
    pub once : Builds IoError driver to_json events s t first g
    pub again : Builds IoError driver to_json events t u second once.graph
    pub nodes : again.graph.nodes ≡ once.graph.nodes
    pub counted : second ≡ first

  -- The graph of a batch is that of its orders.
  Builds-graph :
      (events : List NormalisedEvent) (s s' : StoreState Database) (stats : IngestStats) (g : Graph)
      (b : Builds IoError driver to_json events s s' stats g)
      → b.graph ≡ obey_all (batch_orders s.next_ingest_id events) g
  Builds-graph events s s' stats g b =
      let orders = batch_orders s.next_ingest_id events in
      let read =
        execute-AreTexts DbError IoError to_json orders b.committed.built.statements g b.texts in
      let same : some b.graph ≡ some (obey_all orders g) = sym b.executed ∙ read in cc

  -- A batch that is ingested a second time, into the graph that its statements made the first time of
  -- one without repeated nodes, adds its edges to it again and no node, and has the same counters.
  pub ingest_batch-Repeats :
      (event : NormalisedEvent) (rest : List NormalisedEvent) (s t u : StoreState Database)
      (g : Graph) {first second : IngestStats}
      → IsDistinct g.nodes
      → ingest_batch {IoError = IoError} driver to_json (event ∷ rest) s ≡ (ok first, t)
      → ingest_batch {IoError = IoError} driver to_json (event ∷ rest) t ≡ (ok second, u)
      → Repeats (event ∷ rest) s t u first second g
  ingest_batch-Repeats event rest s t u g {first} {second} distinct h k =
      let events : List NormalisedEvent = event ∷ rest in
      let once : Builds IoError driver to_json events s t first g =
        subst (λ x. Builds IoError driver to_json events s x first g) (ap (λ p. p.1) h)
          (ingest_batch-Builds IoError driver to_json event rest s g distinct (ap (λ p. p.0) h)) in
      let again : Builds IoError driver to_json events t u second once.graph =
        subst (λ x. Builds IoError driver to_json events t x second once.graph) (ap (λ p. p.1) k)
          (ingest_batch-Builds IoError driver to_json event rest t once.graph once.distinct
            (ap (λ p. p.0) k)) in
      let made = Builds-graph events s t first g once in
      record {
        once = once;
        again = again;
        nodes =
            ap (λ x. x.nodes)
              (Builds-graph events t u second once.graph again
                ∙ ap (obey_all (batch_orders t.next_ingest_id events)) made)
            ∙ again-nodes s.next_ingest_id t.next_ingest_id events g
            ∙ ap (λ x. x.nodes) (sym made);
        counted =
            ingest_batch-stats IoError driver to_json events t (ap (λ p. p.0) k)
            ∙ sym (ingest_batch-stats IoError driver to_json events s (ap (λ p. p.0) h));
      }
