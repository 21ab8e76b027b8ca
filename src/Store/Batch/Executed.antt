-- ===== src/Store/Batch/Executed.antt =====
-- The texts that a batch runs, read as Cypher, do what its orders say.
use esgraph.Prelude.{
  ℕ, ◌≡◌, refl, sym, subst, ap₂, ◌∙◌, List, [], ◌∷◌, ok, Option, some, bind-eq-ok, ok-injective,
  arith, is_empty, Bool-cases, inl, inr,
}
use esgraph.Prelude.Int.{ℤ}
use esgraph.Prelude.Text.{Text, text, join, behind}
use esgraph.Core.Model.{
  GraphNode, id, kind_label, process, file, socket, GraphEdge, EventDetails, NormalisedEvent,
}
use esgraph.Store.Cypher.{cypher_str}
use esgraph.Store.Statements.{
  edge_kind_name, edge_props, node_label, merge, merge_process_stmt, merge_node_stmt,
  merge_file_stmt, merge_socket_stmt, insert_ingest_event_stmt, insert_edge_stmt, create_edge,
}
use esgraph.Store.Batch.Reads.{keeps, read_effect, read_word}
use esgraph.Store.Batch.ReadBack.{
  table, node_label-table, read_effect-stub, read_effect-merge, read_effect-create_edge,
}
use esgraph.Store.Batch.Orders.{Order, audit, upsert, stub, link, statement, AreTexts}
use esgraph.Store.Batch.Effects.{Graph, act, execute, effect, obey, obey_all}

module _ (DbError IoError : Type 0) (to_json : EventDetails → Option Text) where
  audit-reads :
      (n : ℕ) (event : NormalisedEvent)
      → read_effect (insert_ingest_event_stmt to_json n event) ≡ some keeps
  unfolding insert_ingest_event_stmt merge read_effect read_word behind
  audit-reads n event = refl

  upsert-reads :
      (node : GraphNode) (ts : ℤ) {s : Text}
      → merge_node_stmt {DbError = DbError} {IoError = IoError} node ts ≡ ok s
      → read_effect s ≡ some (effect (upsert node ts))
  unfolding merge_node_stmt merge_process_stmt merge_file_stmt merge_socket_stmt kind_label id
  upsert-reads (process p) ts {s} h = elim (Bool-cases (is_empty p.identity.audit_token_hex)) [
    | inl empty ↦ absurd (ground arith)
    | inr filled ↦
        let made = ok-injective (rw (filled) at h) in
        subst (λ t. read_effect t ≡ some (effect (upsert (process p) ts))) made
          (read_effect-merge (text "process") p.identity.audit_token_hex _ _ (inl refl))
  ]
  upsert-reads (file f) ts {s} h =
      subst (λ t. read_effect t ≡ some (effect (upsert (file f) ts))) (ok-injective h)
        (read_effect-merge (text "file") f.path _ _ (inr (inl refl)))
  upsert-reads (socket f) ts {s} h =
      subst (λ t. read_effect t ≡ some (effect (upsert (socket f) ts))) (ok-injective h)
        (read_effect-merge (text "socket") f.path _ _ (inr (inr refl)))

  stub-reads :
      (kind id : Text) {s : Text}
      → statement DbError IoError to_json (stub kind id) ≡ ok s
      → read_effect s ≡ some (effect (stub kind id))
  unfolding statement
  stub-reads kind id h =
      let (label, labelled, made) = bind-eq-ok (node_label kind) _ h in
      let (k, is_table) = node_label-table kind labelled in
      rw (sym (ok-injective made), is_table) (read_effect-stub kind id k)

  link-reads :
      (edge : GraphEdge) (name : Text) (n : ℕ) {s : Text}
      → insert_edge_stmt {DbError = DbError} {IoError = IoError} edge name n ≡ ok s
      → read_effect s ≡ some (effect (link edge name n))
  unfolding insert_edge_stmt
  link-reads edge name n {s} h =
      let (src, is_src, more) = bind-eq-ok (node_label edge.src_kind) _ h in
      let (dst, is_dst, made) = bind-eq-ok (node_label edge.dst_kind) _ more in
      let (k, src_table) = node_label-table edge.src_kind is_src in
      let (l, dst_table) = node_label-table edge.dst_kind is_dst in
      let props = join (text ", ") (edge_props edge name n) in
      let written : Text → Text → Text = λ a b.
        create_edge a (cypher_str edge.src_id) b (cypher_str edge.dst_id) (edge_kind_name edge.kind)
          props in
      let is_text : written (table edge.src_kind k) (table edge.dst_kind l) ≡ s =
        ap₂ written (sym src_table) (sym dst_table) ∙ ok-injective made in
      subst (λ t. read_effect t ≡ some (effect (link edge name n))) is_text
        (read_effect-create_edge edge k l props)

  -- The text of an order is read back as what the order does.
  statement-reads :
      (o : Order) {s : Text}
      → statement DbError IoError to_json o ≡ ok s
      → read_effect s ≡ some (effect o)
  unfolding statement
  statement-reads (audit n event) {s} h =
      subst (λ t. read_effect t ≡ some keeps) (ok-injective h) (audit-reads n event)
  statement-reads (upsert node ts) h = upsert-reads node ts h
  statement-reads (stub kind id) h = stub-reads kind id h
  statement-reads (link edge name n) h = link-reads edge name n h

  pub execute-AreTexts :
      (os : List Order) (ss : List Text) (g : Graph)
      → AreTexts DbError IoError to_json os ss
      → execute ss g ≡ some (obey_all os g)
  unfolding execute obey_all obey
  execute-AreTexts [] [] g h = refl
  execute-AreTexts [] (s ∷ ss) g h = absurd (cc)
  execute-AreTexts (o ∷ os) [] g h = elim h [ ]
  execute-AreTexts (o ∷ os) (s ∷ ss) g h =
      rw (statement-reads o h.0) (execute-AreTexts os ss (act (effect o) g) h.1)
