-- ===== src/Store/Statements.antt =====
-- crates/esgraph-store/src/ingest.rs: the Cypher statements that one event is written as.
-- `serde_json::to_string` on the details of an event is a parameter, `none` where it fails.
mod Clauses
pub mod Closed
pub mod Upserts
pub mod Columns
pub mod Rows
pub mod Kept
use mathlib.Core.Option
use esgraph.Prelude.{
  ℕ, Bool, true, false, not, Option, none, some, List, [], ◌∷◌, ◌++◌, if◌then◌else◌, is_empty,
  Outcome, ok, err, panic, ◌>>=◌,
}
use esgraph.Prelude.Int.{ℤ, pos, i64_saturated, i64_wrapped}
use esgraph.Prelude.Text.{Text, text, join, match_text}
use esgraph.Core.Model.{
  ProcessNode, FileNode, SocketNode, GraphNode, process, file, socket, EdgeKind, executed, forked,
  exited, remote_thread_created, got_task, created, wrote, unlinked, renamed, opened, closed,
  uipc_bound, uipc_connected, GraphEdge, EventDetails, is_empty_details, is_none, NormalisedEvent,
}
use esgraph.Store.Cypher.{
  cypher_str, cypher_i64, cypher_bool, assign, opt_str_assign, opt_i64_assign, opt_bool_assign,
  join_set_clauses,
}

-- `StoreError`; the errors of the driver and of the file system are what those report.
pub data StoreError (DbError IoError : Type 0) : Type 0 where
  ladybug : DbError → StoreError DbError IoError
  io : IoError → StoreError DbError IoError
  invalid_event : Text → StoreError DbError IoError

unfoldable pub details_to_json : (EventDetails → Option Text) → Option EventDetails → Option Text
details_to_json to_json none = none
details_to_json to_json (some d) = if is_empty_details d then none else to_json d

unfoldable pub edge_kind_name : EdgeKind → Text
edge_kind_name executed = text "EXECUTED"
edge_kind_name forked = text "FORKED"
edge_kind_name exited = text "EXITED"
edge_kind_name remote_thread_created = text "REMOTE_THREAD_CREATED"
edge_kind_name got_task = text "GOT_TASK"
edge_kind_name created = text "CREATED"
edge_kind_name wrote = text "WROTE"
edge_kind_name unlinked = text "UNLINKED"
edge_kind_name renamed = text "RENAMED"
edge_kind_name opened = text "OPENED"
edge_kind_name closed = text "CLOSED"
edge_kind_name uipc_bound = text "UIPC_BOUND"
edge_kind_name uipc_connected = text "UIPC_CONNECTED"

-- The arms of the `match` in `node_label`; any other kind panics.
unfoldable pub labels : List (Text × Text)
labels =
    (text "process", text "Process")
    ∷ (text "file", text "File")
    ∷ (text "socket", text "Socket")
    ∷ []

unfoldable pub node_label : {E : Type 0} → Text → Outcome E Text
unfolding match_text labels
node_label kind = elim (match_text kind labels) [ some label ↦ ok label | none ↦ panic ]

-- `clauses.extend(clause)`
abbrev pub opt_list : Option Text → List Text
opt_list none = []
opt_list (some clause) = clause ∷ []

abbrev n : Text
n = text "n"

-- `{n}.{key} = {value}`
abbrev set : Text → Text → Text
set key value = assign n key value

unfoldable pub process_set_clauses : ProcessNode → ℤ → Bool → List Text
unfolding opt_str_assign opt_i64_assign opt_bool_assign
process_set_clauses p seen_ns include_args =
    set (text "pid") (cypher_i64 p.identity.pid)
    ∷ set (text "path") (cypher_str p.path)
    ∷ set (text "last_seen_unix_ns") (cypher_i64 seen_ns)
    ∷ (opt_list (opt_str_assign n (text "signing_id") p.signing_id)
        ++ (opt_list (opt_str_assign n (text "team_id") p.team_id)
            ++ (opt_list (opt_str_assign n (text "cdhash") p.cdhash)
                ++ (opt_list (opt_i64_assign n (text "ppid") p.ppid)
                    ++ (opt_list (opt_i64_assign n (text "euid") (Option.map pos p.euid))
                        ++ (opt_list (opt_i64_assign n (text "egid") (Option.map pos p.egid))
                            ++ (opt_list (opt_i64_assign n (text "ruid") (Option.map pos p.ruid))
                                ++ (opt_list
                                      (opt_i64_assign n (text "rgid") (Option.map pos p.rgid))
                                    ++ (opt_list (opt_i64_assign n (text "session_id") p.session_id)
                                        ++ (opt_list (
                                              opt_bool_assign n (text "is_platform_binary")
                                                p.is_platform_binary)
                                            ++ (opt_list (
                                                  opt_str_assign n (text "parent_audit_token_hex")
                                                    p.parent_audit_token_hex)
                                                ++ ((if include_args
                                                      then opt_list (
                                                          opt_str_assign n (text "args_json")
                                                            p.args_json)
                                                      else [])
                                                    ++ opt_list (
                                                        opt_i64_assign n (text "exit_status")
                                                          p.exit_status)))))))))))))

-- `MERGE (n:{label} {id: …}) ON CREATE SET … ON MATCH SET …`
unfoldable pub merge : Text → Text → Text → Text → Text
merge label id create on_match =
    text "MERGE (n:"
    ++ (label
        ++ (text " {id: "
            ++ (id
                ++ (text "}) ON CREATE SET " ++ (create ++ (text " ON MATCH SET " ++ on_match))))))

unfoldable pub file_set_clauses : FileNode → ℤ → List Text
unfolding opt_i64_assign
file_set_clauses f seen_ns =
    set (text "path") (cypher_str f.path)
    ∷ set (text "last_seen_unix_ns") (cypher_i64 seen_ns)
    ∷ set (text "path_truncated") (cypher_bool f.path_truncated)
    ∷ (opt_list (opt_i64_assign n (text "inode") (Option.map i64_wrapped f.inode))
        ++ (opt_list (opt_i64_assign n (text "mode") (Option.map pos f.mode))
            ++ (opt_list (opt_i64_assign n (text "owner_uid") (Option.map pos f.owner_uid))
                ++ opt_list (opt_i64_assign n (text "owner_gid") (Option.map pos f.owner_gid)))))

unfoldable pub merge_file_stmt : FileNode → ℤ → Text
unfolding merge file_set_clauses
merge_file_stmt f seen_ns =
    let sets = join_set_clauses (file_set_clauses f seen_ns) in
    merge (text "File") (cypher_str f.path) sets sets

unfoldable pub socket_set_clauses : SocketNode → ℤ → List Text
socket_set_clauses s seen_ns =
    set (text "path") (cypher_str s.path) ∷ set (text "last_seen_unix_ns") (cypher_i64 seen_ns) ∷ []

unfoldable pub merge_socket_stmt : SocketNode → ℤ → Text
unfolding merge socket_set_clauses
merge_socket_stmt s seen_ns =
    let sets = join_set_clauses (socket_set_clauses s seen_ns) in
    merge (text "Socket") (cypher_str s.path) sets sets

unfoldable pub merge_stub_node_stmt : Text → Text → Text
merge_stub_node_stmt label id =
    text "MERGE (n:" ++ (label ++ (text " {id: " ++ (cypher_str id ++ text "})")))

unfoldable pub ingest_event_clauses : (EventDetails → Option Text) → NormalisedEvent → List Text
unfolding details_to_json opt_str_assign
ingest_event_clauses to_json event =
    set (text "event_name") (cypher_str event.event_name)
    ∷ set (text "timestamp_unix_ns") (cypher_i64 event.timestamp_unix_ns)
    ∷ (opt_list (opt_str_assign n (text "context_json") (details_to_json to_json event.details))
        ++ opt_list (opt_str_assign n (text "raw_json") event.raw_json))

unfoldable pub insert_ingest_event_stmt : (EventDetails → Option Text) → ℕ → NormalisedEvent → Text
unfolding merge ingest_event_clauses i64_saturated
insert_ingest_event_stmt to_json ingest_id event =
    let sets = join_set_clauses (ingest_event_clauses to_json event) in
    merge (text "IngestEvent") (cypher_i64 (i64_saturated ingest_id)) sets sets

-- `{key}: {value}`
abbrev pair : Text → Text → Text
pair key value = key ++ (text ": " ++ value)

abbrev opt_pair : Text → Option Text → List Text
opt_pair key none = []
opt_pair key (some value) = pair key (cypher_str value) ∷ []

unfoldable pub edge_props : GraphEdge → Text → ℕ → List Text
unfolding i64_saturated
edge_props edge event_name ingest_event_id =
    pair (text "timestamp_unix_ns") (cypher_i64 edge.timestamp_unix_ns)
    ∷ pair (text "event_name") (cypher_str event_name)
    ∷ pair (text "ingest_event_id") (cypher_i64 (i64_saturated ingest_event_id))
    ∷ opt_pair (text "metadata") edge.metadata

-- `MATCH (a:{src_label} {id: …}), (b:{dst_label} {id: …}) CREATE (a)-[:{rel} {…}]->(b)`
unfoldable pub create_edge : Text → Text → Text → Text → Text → Text → Text
create_edge src_label src_id dst_label dst_id rel props_body =
    text "MATCH (a:"
    ++ (src_label
        ++ (text " {id: "
            ++ (src_id
                ++ (text "}), (b:"
                    ++ (dst_label
                        ++ (text " {id: "
                            ++ (dst_id
                                ++ (text "}) CREATE (a)-[:"
                                    ++ (rel
                                        ++ (text " {" ++ (props_body ++ text "}]->(b)")))))))))))

module _ {DbError IoError : Type 0} where
  unfoldable pub merge_process_stmt : ProcessNode → ℤ → Outcome (StoreError DbError IoError) Text
  unfolding merge process_set_clauses
  merge_process_stmt p seen_ns =
      let id = p.identity.audit_token_hex in
      let create = join_set_clauses (process_set_clauses p seen_ns true) in
      let on_match = join_set_clauses (process_set_clauses p seen_ns (not (is_none p.args_json))) in
      if is_empty id
      then err (invalid_event (text "process node missing audit_token_hex"))
      else ok (merge (text "Process") (cypher_str id) create on_match)

  unfoldable pub merge_node_stmt : GraphNode → ℤ → Outcome (StoreError DbError IoError) Text
  unfolding merge_process_stmt merge_file_stmt merge_socket_stmt
  merge_node_stmt (process p) seen_ns = merge_process_stmt p seen_ns
  merge_node_stmt (file f) seen_ns = ok (merge_file_stmt f seen_ns)
  merge_node_stmt (socket s) seen_ns = ok (merge_socket_stmt s seen_ns)

  unfoldable pub insert_edge_stmt : GraphEdge → Text → ℕ → Outcome (StoreError DbError IoError) Text
  unfolding edge_kind_name node_label edge_props create_edge join
  insert_edge_stmt edge event_name ingest_event_id = do
    src_label ← node_label edge.src_kind
    dst_label ← node_label edge.dst_kind
    ok (
        create_edge src_label (cypher_str edge.src_id) dst_label (cypher_str edge.dst_id)
          (edge_kind_name edge.kind)
          (join (text ", ") (edge_props edge event_name ingest_event_id)))

  unfoldable pub ensure_edge_endpoints :
      GraphEdge → Outcome (StoreError DbError IoError) (List Text)
  unfolding node_label merge_stub_node_stmt
  ensure_edge_endpoints edge = do
    src_label ← node_label edge.src_kind
    dst_label ← node_label edge.dst_kind
    ok (
        merge_stub_node_stmt src_label edge.src_id
        ∷ merge_stub_node_stmt dst_label edge.dst_id
        ∷ [])
