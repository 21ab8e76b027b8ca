-- ===== src/Daemon/Pipeline/Scripts.antt =====
-- The scripts of batches hold nothing but statements that the database knows.
use esgraph.Prelude.{
  ℕ, ◌%◌, ◌^◌, ◌+◌, true, not, ◌≡◌, ◌≢◌, refl, sym, subst, ap₂, ◌∙◌, inl, inr, List, [], ◌∷◌, All,
  All-append, ok, Option, bind-eq-ok, ok-injective, is_empty, Bool-cases, arith,
}
use esgraph.Prelude.Int.{ℤ, i64_saturated}
use esgraph.Prelude.Text.{Text, text, join}
use esgraph.Core.Model.{
  GraphNode, process, file, socket, GraphEdge, EventDetails, NormalisedEvent, is_none,
}
use esgraph.Store.Schema.Tables.{has_rel_table}
use esgraph.Store.Statements.{
  node_label, edge_kind_name, edge_props, merge_process_stmt, merge_node_stmt, merge_file_stmt,
  merge_socket_stmt, merge_stub_node_stmt, insert_ingest_event_stmt, insert_edge_stmt, create_edge,
  process_set_clauses, file_set_clauses, socket_set_clauses, ingest_event_clauses,
}
use esgraph.Store.Statements.Columns.{string, int64, declared}
use esgraph.Store.Statements.Columns.Nodes.{
  process_set_clauses-SetsColumn, file_set_clauses-SetsColumn, socket_set_clauses-SetsColumn,
  ingest_event_clauses-SetsColumn,
}
use esgraph.Store.Statements.Columns.Edges.{edge_props-GivesColumn}
use esgraph.Store.Batch.ReadBack.{node_label-table}
use esgraph.Store.Batch.Orders.{
  Order, audit, upsert, stub, link, statement, node_orders, edge_orders, event_orders, batch_orders,
  AreTexts,
}
use esgraph.Esf.Normalise.Ingestible.{HasTable}
use esgraph.Daemon.Pipeline.Grammar.{
  IsListed, IsMerge, IsUpsert, IsCreation, IsCypher, IsGiven, merge-IsUpsert, Fits, table-keyed,
  node_label-same,
}

module _ (DbError IoError : Type 0) (to_json : EventDetails → Option Text) where
  insert_ingest_event_stmt-IsUpsert :
      (n : ℕ) (event : NormalisedEvent) → IsUpsert (insert_ingest_event_stmt to_json n event)
  unfolding insert_ingest_event_stmt ingest_event_clauses declared
  insert_ingest_event_stmt-IsUpsert n event =
      let sets = ingest_event_clauses-SetsColumn to_json event in
      merge-IsUpsert (text "IngestEvent") (int64 (i64_saturated n)) _ _ _ _ refl sets sets

  merge_node_stmt-IsUpsert :
      (node : GraphNode) (ts : ℤ) {s : Text}
      → merge_node_stmt {DbError = DbError} {IoError = IoError} node ts ≡ ok s
      → IsUpsert s
  unfolding merge_node_stmt merge_process_stmt merge_file_stmt merge_socket_stmt declared
      process_set_clauses file_set_clauses socket_set_clauses
  merge_node_stmt-IsUpsert (process p) ts {s} h =
      elim (Bool-cases (is_empty p.identity.audit_token_hex)) [
        | inl empty ↦ absurd (ground arith)
        | inr filled ↦ subst IsUpsert (ok-injective (rw filled at h)) (
            merge-IsUpsert (text "Process") (string p.identity.audit_token_hex) _ _ _ _ refl
              (process_set_clauses-SetsColumn p ts true)
              (process_set_clauses-SetsColumn p ts (not (is_none p.args_json))))
      ]
  merge_node_stmt-IsUpsert (file f) ts h =
      let sets = file_set_clauses-SetsColumn f ts in
      subst IsUpsert (ok-injective h)
        (merge-IsUpsert (text "File") (string f.path) _ _ _ _ refl sets sets)
  merge_node_stmt-IsUpsert (socket f) ts h =
      let sets = socket_set_clauses-SetsColumn f ts in
      subst IsUpsert (ok-injective h)
        (merge-IsUpsert (text "Socket") (string f.path) _ _ _ _ refl sets sets)

  stub-IsMerge :
      (kind id : Text) {s : Text}
      → statement DbError IoError to_json (stub kind id) ≡ ok s
      → IsMerge s
  unfolding statement merge_stub_node_stmt
  stub-IsMerge kind id h =
      let (label, labelled, made) = bind-eq-ok (node_label kind) _ h in
      let (k, is_table) = node_label-table kind labelled in
      record {
        label = label;
        id = string id;
        keyed =
            subst (λ t. declared (text "NODE") t (text "id") (text "STRING") ≡ true) (sym is_table)
              (table-keyed kind k);
        is = sym (ok-injective made);
      }

  All-IsListed :
      (P : Text → Type 0) (xs : List Text) → xs ≢ [] → All P xs → IsListed P (join (text ", ") xs)
  All-IsListed P [] ne h = absurd (ne refl)
  All-IsListed P (c ∷ cs) ne h = (c, cs, refl, h)

  insert_edge_stmt-IsCreation :
      (edge : GraphEdge) (name : Text) (n : ℕ) {s : Text}
      → HasTable edge
      → insert_edge_stmt {DbError = DbError} {IoError = IoError} edge name n ≡ ok s
      → IsCreation s
  unfolding insert_edge_stmt create_edge edge_props
  insert_edge_stmt-IsCreation edge name n t h =
      let (src, is_src, more) = bind-eq-ok (node_label edge.src_kind) _ h in
      let (dst, is_dst, made) = bind-eq-ok (node_label edge.dst_kind) _ more in
      record {
        src = src;
        dst = dst;
        src_id = edge.src_id;
        dst_id = edge.dst_id;
        rel = edge_kind_name edge.kind;
        properties = join (text ", ") (edge_props edge name n);
        has_table =
            ap₂ (has_rel_table (edge_kind_name edge.kind))
              (node_label-same edge.src_kind is_src t.from)
              (node_label-same edge.dst_kind is_dst t.to)
            ∙ t.table;
        gives =
            All-IsListed (IsGiven (edge_kind_name edge.kind)) (edge_props edge name n) (λ e. cc)
              (edge_props-GivesColumn edge name n);
        is = sym (ok-injective made);
      }

  statement-IsCypher :
      (o : Order) {s : Text} → Fits o → statement DbError IoError to_json o ≡ ok s → IsCypher s
  unfolding statement
  statement-IsCypher (audit n event) f h =
      inr (inl (subst IsUpsert (ok-injective h) (insert_ingest_event_stmt-IsUpsert n event)))
  statement-IsCypher (upsert node ts) f h = inr (inl (merge_node_stmt-IsUpsert node ts h))
  statement-IsCypher (stub kind id) f h = inl (stub-IsMerge kind id h)
  statement-IsCypher (link edge name n) f h =
      inr (inr (insert_edge_stmt-IsCreation edge name n f h))

  -- The texts of orders that fit are statements.
  pub AreTexts-IsCypher :
      (os : List Order) (ss : List Text)
      → All Fits os
      → AreTexts DbError IoError to_json os ss
      → All IsCypher ss
  AreTexts-IsCypher [] [] f h = tt
  AreTexts-IsCypher [] (s ∷ ss) f h = absurd (cc)
  AreTexts-IsCypher (o ∷ os) [] f h = elim h [ ]
  AreTexts-IsCypher (o ∷ os) (s ∷ ss) f h =
      (statement-IsCypher o f.0 h.0, AreTexts-IsCypher os ss f.1 h.1)

-- Every edge of the event has a table.
abbrev pub HasTables : NormalisedEvent → Type 0
HasTables event = All HasTable event.edges

node_orders-Fits : (ts : ℤ) (nodes : List GraphNode) → All Fits (node_orders ts nodes)
node_orders-Fits ts [] = tt
node_orders-Fits ts (node ∷ rest) = (tt, node_orders-Fits ts rest)

edge_orders-Fits :
    (name : Text) (n : ℕ) (edges : List GraphEdge)
    → All HasTable edges
    → All Fits (edge_orders name n edges)
edge_orders-Fits name n [] h = tt
edge_orders-Fits name n (edge ∷ rest) h = (tt, (tt, (h.0, edge_orders-Fits name n rest h.1)))

pub batch_orders-Fits :
    (next : ℕ) (events : List NormalisedEvent)
    → All HasTables events
    → All Fits (batch_orders next events)
batch_orders-Fits next [] h = tt
batch_orders-Fits next (event ∷ rest) h =
    All-append Fits (event_orders next event) (batch_orders ((next + 1) % 2 ^ 64) rest)
      (
        tt,
        All-append Fits (node_orders event.timestamp_unix_ns event.nodes)
            (edge_orders event.event_name next event.edges)
            (node_orders-Fits event.timestamp_unix_ns event.nodes)
            (edge_orders-Fits event.event_name next event.edges h.0),
      )
      (batch_orders-Fits ((next + 1) % 2 ^ 64) rest h.1)
