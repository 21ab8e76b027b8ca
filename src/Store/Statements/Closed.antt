-- ===== src/Store/Statements/Closed.antt =====
-- Every statement of an event closes its literals and has no semicolon outside them.
use esgraph.Prelude.{
  ℕ, true, Option, List, [], ◌∷◌, ◌≡◌, refl, subst, not, All, ok, bind-eq-ok, arith,
}
use esgraph.Prelude.Int.{ℤ, i64_saturated}
use esgraph.Prelude.Text.{Text, text, join}
use esgraph.Core.Model.{
  ProcessNode, GraphNode, process, file, socket, GraphEdge, EventDetails, NormalisedEvent, is_none,
}
use esgraph.Store.Cypher.{cypher_str, join_set_clauses}
use esgraph.Store.Cypher.Script.{
  scan, IsClosed, IsClosed-append, IsClosed-cypher_str, IsClosed-cypher_i64, IsStatement,
  drop_newline,
}
use esgraph.Store.Statements.{
  edge_kind_name, node_label, process_set_clauses, merge, file_set_clauses, merge_file_stmt,
  socket_set_clauses, merge_socket_stmt, merge_stub_node_stmt, insert_ingest_event_stmt, edge_props,
  create_edge, merge_process_stmt, merge_node_stmt, insert_edge_stmt, ensure_edge_endpoints,
}
use esgraph.Store.Statements.Clauses.{
  IsClosed-join, IsClosed-join_set_clauses, process_set_clauses-IsClosed, file_set_clauses-IsClosed,
  socket_set_clauses-IsClosed, ingest_event_clauses-IsClosed, edge_kind_name-IsClosed,
  node_label-IsClosed, edge_props-IsClosed,
}

IsClosed-merge :
    (label id create on_match : Text)
    → IsClosed label
    → IsClosed id
    → IsClosed create
    → IsClosed on_match
    → IsClosed (merge label id create on_match)
unfolding merge scan
IsClosed-merge label id create on_match hl hi hc ho =
    IsClosed-append label _ hl (IsClosed-append id _ hi (IsClosed-append create _ hc ho))

-- A statement that `merge` writes begins with its keyword.
merge-IsStatement :
    (label id : Text) (create on_match : List Text)
    → IsClosed label
    → IsClosed id
    → All IsClosed create
    → All IsClosed on_match
    → IsStatement (merge label id (join_set_clauses create) (join_set_clauses on_match))
merge-IsStatement label id create on_match hl hi hc ho = record {
  closed =
      IsClosed-merge label id _ _ hl hi (IsClosed-join_set_clauses create hc)
        (IsClosed-join_set_clauses on_match ho);
  starts = unfold merge drop_newline in refl;
}

merge_stub_node_stmt-IsStatement :
    (label id : Text) → IsClosed label → IsStatement (merge_stub_node_stmt label id)
unfolding merge_stub_node_stmt scan drop_newline
merge_stub_node_stmt-IsStatement label id hl = record {
  closed =
      IsClosed-append label _ hl (IsClosed-append (cypher_str id) _ (IsClosed-cypher_str id) refl);
  starts = refl;
}

pub insert_ingest_event_stmt-IsStatement :
    (to_json : EventDetails → Option Text) (ingest_id : ℕ) (event : NormalisedEvent)
    → IsStatement (insert_ingest_event_stmt to_json ingest_id event)
unfolding insert_ingest_event_stmt
insert_ingest_event_stmt-IsStatement to_json ingest_id event =
    let sets = ingest_event_clauses-IsClosed to_json event in
    merge-IsStatement (text "IngestEvent") _ _ _ (unfold scan in refl)
      (IsClosed-cypher_i64 (i64_saturated ingest_id)) sets sets

create_edge-IsStatement :
    (src_label src_id dst_label dst_id rel props : Text)
    → IsClosed src_label
    → IsClosed src_id
    → IsClosed dst_label
    → IsClosed dst_id
    → IsClosed rel
    → IsClosed props
    → IsStatement (create_edge src_label src_id dst_label dst_id rel props)
unfolding create_edge scan drop_newline
create_edge-IsStatement sl si dl di rel props hsl hsi hdl hdi hrel hprops = record {
  closed = IsClosed-append sl _ hsl (
      IsClosed-append si _ hsi (
        IsClosed-append dl _ hdl (
          IsClosed-append di _ hdi
            (IsClosed-append rel _ hrel (IsClosed-append props _ hprops refl)))));
  starts = refl;
}

module _ {DbError IoError : Type 0} where
  merge_process_stmt-IsStatement :
      (p : ProcessNode) (seen_ns : ℤ) {s : Text}
      → merge_process_stmt {DbError = DbError} {IoError = IoError} p seen_ns ≡ ok s
      → IsStatement s
  unfolding merge_process_stmt
  merge_process_stmt-IsStatement p seen_ns {s} h =
      let whole =
        merge-IsStatement (text "Process") (cypher_str p.identity.audit_token_hex)
          (process_set_clauses p seen_ns true)
          (process_set_clauses p seen_ns (not (is_none p.args_json))) (unfold scan in refl)
          (IsClosed-cypher_str p.identity.audit_token_hex)
          (process_set_clauses-IsClosed p seen_ns true)
          (process_set_clauses-IsClosed p seen_ns (not (is_none p.args_json))) in
      subst IsStatement (ground arith) whole

  -- A node's upsert is one statement.
  pub merge_node_stmt-IsStatement :
      (node : GraphNode) (seen_ns : ℤ) {s : Text}
      → merge_node_stmt {DbError = DbError} {IoError = IoError} node seen_ns ≡ ok s
      → IsStatement s
  unfolding merge_node_stmt merge_file_stmt merge_socket_stmt
  merge_node_stmt-IsStatement (process p) seen_ns h = merge_process_stmt-IsStatement p seen_ns h
  merge_node_stmt-IsStatement (file f) seen_ns h =
      let sets = file_set_clauses-IsClosed f seen_ns in
      subst IsStatement (cc) (
        merge-IsStatement (text "File") (cypher_str f.path) (file_set_clauses f seen_ns)
          (file_set_clauses f seen_ns) (unfold scan in refl) (IsClosed-cypher_str f.path) sets sets)
  merge_node_stmt-IsStatement (socket f) seen_ns h =
      let sets = socket_set_clauses-IsClosed f seen_ns in
      subst IsStatement (cc) (
        merge-IsStatement (text "Socket") (cypher_str f.path) (socket_set_clauses f seen_ns)
          (socket_set_clauses f seen_ns) (unfold scan in refl) (IsClosed-cypher_str f.path) sets
          sets)

  -- An edge is one statement.
  pub insert_edge_stmt-IsStatement :
      (edge : GraphEdge) (event_name : Text) (id : ℕ) {s : Text}
      → insert_edge_stmt {DbError = DbError} {IoError = IoError} edge event_name id ≡ ok s
      → IsStatement s
  unfolding insert_edge_stmt
  insert_edge_stmt-IsStatement edge event_name id {s} h =
      let (sl, hs, rest) = bind-eq-ok (node_label edge.src_kind) _ h in
      let (dl, hd, made) = bind-eq-ok (node_label edge.dst_kind) _ rest in
      subst IsStatement (cc) (
        create_edge-IsStatement sl (cypher_str edge.src_id) dl (cypher_str edge.dst_id)
          (edge_kind_name edge.kind) (join (text ", ") (edge_props edge event_name id))
          (node_label-IsClosed edge.src_kind hs) (IsClosed-cypher_str edge.src_id)
          (node_label-IsClosed edge.dst_kind hd) (IsClosed-cypher_str edge.dst_id)
          (edge_kind_name-IsClosed edge.kind)
          (IsClosed-join (text ", ") (edge_props edge event_name id) (unfold scan in refl)
            (edge_props-IsClosed edge event_name id)))

  -- The two stubs of an edge are a statement each.
  pub ensure_edge_endpoints-IsStatement :
      (edge : GraphEdge) {ss : List Text}
      → ensure_edge_endpoints {DbError = DbError} {IoError = IoError} edge ≡ ok ss
      → All IsStatement ss
  unfolding ensure_edge_endpoints
  ensure_edge_endpoints-IsStatement edge {ss} h =
      let (sl, hs, rest) = bind-eq-ok (node_label edge.src_kind) _ h in
      let (dl, hd, made) = bind-eq-ok (node_label edge.dst_kind) _ rest in
      let stubs = merge_stub_node_stmt sl edge.src_id ∷ merge_stub_node_stmt dl edge.dst_id ∷ [] in
      subst (All IsStatement) {x = stubs} (cc) (
        merge_stub_node_stmt-IsStatement sl edge.src_id (node_label-IsClosed edge.src_kind hs),
        (
          merge_stub_node_stmt-IsStatement dl edge.dst_id (node_label-IsClosed edge.dst_kind hd),
          tt,
        ),
      )
