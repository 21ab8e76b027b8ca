-- ===== src/Store/Batch/ReadBack.antt =====
-- What `MERGE` and `MATCH … CREATE` are written as is read back as what they do.
use esgraph.Prelude.{
  ◌≡◌, refl, sym, ap, ◌∙◌, [], ◌++◌, none, some, if◌then◌else◌, inl, inr, ok, ok-injective,
}
use esgraph.Prelude.Text.{Text, text, behind}
use esgraph.Core.Model.{
  EdgeKind, executed, forked, exited, remote_thread_created, got_task, created, wrote, unlinked,
  renamed, opened, closed, uipc_bound, uipc_connected, GraphEdge,
}
use esgraph.Store.Cypher.{cypher_str}
use esgraph.Store.Cypher.Literal.{read_literal-cypher_str}
use esgraph.Store.Statements.{
  labels, node_label, edge_kind_name, merge, merge_stub_node_stmt, create_edge,
}
use esgraph.Store.Batch.Writable.{IsKind, node_label-IsKind}
use esgraph.Store.Batch.Reads.{
  Key, merges, links, ends_with-append, relationships, keyed, read_key, read_node, read_word,
  upserted, related, to_target, from_source, read_effect,
}

-- The table of a kind.
abbrev pub table : (kind : Text) → IsKind kind → Text
table kind (inl _) = text "Process"
table kind (inr (inl _)) = text "File"
table kind (inr (inr _)) = text "Socket"

read_key-cypher_str :
    (kind id rest : Text)
    → read_key kind (cypher_str id ++ (text "})" ++ rest)) ≡ some ((kind, id), rest)
unfolding read_key behind
read_key-cypher_str kind id rest = ap (keyed kind) (read_literal-cypher_str id (text "})" ++ rest))

-- A pattern of a node is read back.
pub read_node-table :
    (kind id rest : Text) (k : IsKind kind)
    → read_node (table kind k ++ (text " {id: " ++ (cypher_str id ++ (text "})" ++ rest))))
      ≡ some ((kind, id), rest)
unfolding read_node read_word behind
read_node-table kind id rest (inl e) =
    read_key-cypher_str (text "process") id rest ∙ ap (λ k. some ((k, id), rest)) (sym e)
read_node-table kind id rest (inr (inl e)) =
    read_key-cypher_str (text "file") id rest ∙ ap (λ k. some ((k, id), rest)) (sym e)
read_node-table kind id rest (inr (inr e)) =
    read_key-cypher_str (text "socket") id rest ∙ ap (λ k. some ((k, id), rest)) (sym e)

pub read_word-edge_kind_name :
    (kind : EdgeKind) (rest : Text)
    → read_word relationships (edge_kind_name kind ++ (text " {" ++ rest)) ≡ some (kind, rest)
unfolding read_word behind edge_kind_name
read_word-edge_kind_name executed rest = refl
read_word-edge_kind_name forked rest = refl
read_word-edge_kind_name exited rest = refl
read_word-edge_kind_name remote_thread_created rest = refl
read_word-edge_kind_name got_task rest = refl
read_word-edge_kind_name created rest = refl
read_word-edge_kind_name wrote rest = refl
read_word-edge_kind_name unlinked rest = refl
read_word-edge_kind_name renamed rest = refl
read_word-edge_kind_name opened rest = refl
read_word-edge_kind_name closed rest = refl
read_word-edge_kind_name uipc_bound rest = refl
read_word-edge_kind_name uipc_connected rest = refl

-- The words of a verb that none of the others has.
read_effect-upsert :
    (kind rest : Text) (k : IsKind kind)
    → read_effect (text "MERGE (n:" ++ (table kind k ++ rest))
      ≡ upserted (read_node (table kind k ++ rest))
unfolding read_effect read_word behind
read_effect-upsert kind rest (inl e) = refl
read_effect-upsert kind rest (inr (inl e)) = refl
read_effect-upsert kind rest (inr (inr e)) = refl

-- The upsert of a bare key, and one with columns to set, merge the node of that key.
pub read_effect-stub :
    (kind id : Text) (k : IsKind kind)
    → read_effect (merge_stub_node_stmt (table kind k) id) ≡ some (merges (kind, id))
unfolding merge_stub_node_stmt upserted
read_effect-stub kind id k =
    read_effect-upsert kind (text " {id: " ++ (cypher_str id ++ text "})")) k
    ∙ ap upserted (read_node-table kind id [] k)

pub read_effect-merge :
    (kind id create on_match : Text) (k : IsKind kind)
    → read_effect (merge (table kind k) (cypher_str id) create on_match) ≡ some (merges (kind, id))
unfolding merge behind upserted
read_effect-merge kind id create on_match k =
    let rest = text " ON CREATE SET " ++ (create ++ (text " ON MATCH SET " ++ on_match)) in
    read_effect-upsert kind (text " {id: " ++ (cypher_str id ++ (text "})" ++ rest))) k
    ∙ ap upserted (read_node-table kind id rest k)

-- The creation of an edge links its ends by its kind.
pub read_effect-create_edge :
    (edge : GraphEdge) (src : IsKind edge.src_kind) (dst : IsKind edge.dst_kind) (props : Text)
    → read_effect (
        create_edge
          (table edge.src_kind src)
          (cypher_str edge.src_id)
          (table edge.dst_kind dst)
          (cypher_str edge.dst_id)
          (edge_kind_name edge.kind)
          props)
      ≡ some (links (edge.src_kind, edge.src_id) edge.kind (edge.dst_kind, edge.dst_id))
unfolding create_edge read_effect read_word behind
read_effect-create_edge edge src dst props =
    let given = props ++ text "}]->(b)" in
    let relationship = edge_kind_name edge.kind ++ (text " {" ++ given) in
    let second = text " CREATE (a)-[:" ++ relationship in
    let target =
      table edge.dst_kind dst
      ++ (text " {id: " ++ (cypher_str edge.dst_id ++ (text "})" ++ second))) in
    let a : Key = (edge.src_kind, edge.src_id) in
    let b : Key = (edge.dst_kind, edge.dst_id) in
    ap from_source (read_node-table edge.src_kind edge.src_id (text ", (b:" ++ target) src)
    ∙ ap (to_target a) (read_node-table edge.dst_kind edge.dst_id second dst)
    ∙ ap (related a b) (read_word-edge_kind_name edge.kind given)
    ∙ ap (λ t. if t then some (links a edge.kind b) else none)
        (ends_with-append props (text "}]->(b)"))

pub node_label-IsKind-table :
    {E : Type 0} (kind : Text) (k : IsKind kind) → node_label {E = E} kind ≡ ok (table kind k)
unfolding node_label labels
node_label-IsKind-table kind (inl e) = rw e refl
node_label-IsKind-table kind (inr (inl e)) = rw e refl
node_label-IsKind-table kind (inr (inr e)) = rw e refl

-- The label of a kind is its table.
pub node_label-table :
    {E : Type 0} (kind : Text) {label : Text}
    → node_label {E = E} kind ≡ ok label
    → (k : IsKind kind) × (label ≡ table kind k)
node_label-table kind h =
    let k = node_label-IsKind kind h in (k, ok-injective (sym h ∙ node_label-IsKind-table kind k))
