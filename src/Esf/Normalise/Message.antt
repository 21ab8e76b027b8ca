-- ===== src/Esf/Normalise/Message.antt =====
-- The nodes, edges and details of each kind of event, and `normalise_message`.
use esgraph.Prelude.{
  Option, none, some, List, [], ◌∷◌, ◌++◌, ℕ, false, map, if◌then◌else◌, Outcome, ok, err,
}
use esgraph.Prelude.Int.{ℤ, show_int}
use esgraph.Prelude.Text.{Text, text}
use esgraph.Core.Model.{
  GraphNode, process, file, socket, EdgeKind, executed, forked, exited, remote_thread_created,
  got_task, created, wrote, unlinked, renamed, opened, closed, uipc_bound, uipc_connected,
  GraphEdge, EventDetails, default_details, is_empty_details, NormalisedEvent,
}
use esgraph.Esf.Endpoint.{File, Process, CreateDestination, Event, Message}
use esgraph.Esf.Errors.{EsfError, normalise}
use esgraph.Esf.Subscribe.{es_type_to_event_name}
use esgraph.Esf.Normalise.Parts.{
  OsText, msg_time_ns, audit_token_hex, with_exec, with_exit, merge_file, process_path, file_path,
  process_node, file_from_esf, instigator_details, join_dir_filename, rename_dest_path,
}

-- The triple that each arm of `normalise_message` computes.
pub record Parts : Type 0 where
  pub nodes : List GraphNode
  pub edges : List GraphEdge
  pub details : EventDetails

-- An edge from a process, with no metadata.
abbrev edge_to : EdgeKind → Process → Text → Text → ℤ → GraphEdge
edge_to kind src dst_id dst_kind ts = record {
  kind = kind;
  src_id = audit_token_hex src;
  src_kind = text "process";
  dst_id = dst_id;
  dst_kind = dst_kind;
  timestamp_unix_ns = ts;
  metadata = none;
}

unfoldable pub process_process_edge : Process → Process → EdgeKind → ℤ → GraphEdge
process_process_edge src dst kind ts = edge_to kind src (audit_token_hex dst) (text "process") ts

module _ (os : OsText) where
  unfoldable pub file_process_edge : Process → File → EdgeKind → ℤ → GraphEdge
  file_process_edge proc f kind ts = edge_to kind proc (file_path os f) (text "file") ts

  unfoldable pub path_file_event : Process → Text → Option ℕ → EdgeKind → ℤ → Parts
  path_file_event proc path mode kind ts = record {
    nodes =
        process (process_node os proc none none)
        ∷ file (record {
          path = path;
          inode = none;
          mode = mode;
          owner_uid = none;
          owner_gid = none;
          path_truncated = false;
        })
        ∷ [];
    edges = edge_to kind proc path (text "file") ts ∷ [];
    details = merge_file (instigator_details os proc) (record default_details { file_mode = mode });
  }

  unfoldable pub socket_path_event : Process → Text → Option ℕ → EdgeKind → ℤ → Parts
  socket_path_event proc path socket_mode kind ts = record {
    nodes = process (process_node os proc none none) ∷ socket (record { path = path }) ∷ [];
    edges = edge_to kind proc path (text "socket") ts ∷ [];
    details = record (instigator_details os proc) { file_mode = socket_mode };
  }

  unfoldable pub file_event : Process → File → EdgeKind → ℤ → Parts
  unfolding file_process_edge
  file_event proc f kind ts =
      let (file_node, file_details) = file_from_esf os f in
      record {
        nodes = process (process_node os proc none none) ∷ file file_node ∷ [];
        edges = file_process_edge proc f kind ts ∷ [];
        details = merge_file (instigator_details os proc) file_details;
      }

  unfoldable pub socket_event : Process → File → EdgeKind → ℤ → Parts
  socket_event proc f kind ts = record {
    nodes =
        process (process_node os proc none none) ∷ socket (record { path = file_path os f }) ∷ [];
    edges = edge_to kind proc (file_path os f) (text "socket") ts ∷ [];
    details = instigator_details os proc;
  }

  -- The two processes of an event and the edge between them.
  abbrev two_processes : Process → Process → EdgeKind → ℤ → Parts
  two_processes src dst kind ts = record {
    nodes = process (process_node os src none none) ∷ process (process_node os dst none none) ∷ [];
    edges = process_process_edge src dst kind ts ∷ [];
    details = instigator_details os src;
  }

  -- The arms of the match on the event; `none` where the source returns `Ok(None)`.
  unfoldable pub event_parts : Process → ℤ → Event → Option Parts
  unfolding process_process_edge path_file_event socket_path_event file_event socket_event
  event_parts proc ts (Event.notify_exec target argv) =
      let args = map os.to_string_lossy argv in
      let details = with_exec (instigator_details os proc) (process_path os target) args in
      some (record {
        nodes =
            process (process_node os proc none none)
            ∷ process (process_node os target (some args) none)
            ∷ [];
        edges = process_process_edge proc target executed ts ∷ [];
        details = record details { target_audit_token_hex = some (audit_token_hex target) };
      })
  event_parts proc ts (Event.notify_fork child) = some (two_processes proc child forked ts)
  event_parts proc ts (Event.notify_exit status) =
      let node = process_node os proc none (some status) in
      some (record {
        nodes = process node ∷ [];
        edges =
            record {
              kind = exited;
              src_id = node.identity.audit_token_hex;
              src_kind = text "process";
              dst_id = node.identity.audit_token_hex;
              dst_kind = text "process";
              timestamp_unix_ns = ts;
              metadata = some (text "{\"exit_status\":" ++ (show_int status ++ text "}"));
            }
            ∷ [];
        details = with_exit (instigator_details os proc) status;
      })
  event_parts proc ts (Event.notify_remote_thread_create target) =
      some (two_processes proc target remote_thread_created ts)
  event_parts proc ts (Event.notify_get_task target) = some (two_processes proc target got_task ts)
  event_parts proc ts (Event.notify_create (some (CreateDestination.existing_file f))) =
      some (file_event proc f created ts)
  event_parts proc ts
        (Event.notify_create (some (CreateDestination.new_path directory filename mode))) =
      some (path_file_event proc (join_dir_filename os directory filename) (some mode) created ts)
  event_parts proc ts (Event.notify_create (some CreateDestination.other)) = none
  event_parts proc ts (Event.notify_create none) = none
  event_parts proc ts (Event.notify_write target) = some (file_event proc target wrote ts)
  event_parts proc ts (Event.notify_unlink target) = some (file_event proc target unlinked ts)
  event_parts proc ts (Event.notify_rename source destination) =
      let (node, file_details) = file_from_esf os source in
      let dest = rename_dest_path os destination in
      some (record {
        nodes = process (process_node os proc none none) ∷ file node ∷ [];
        edges =
            record (edge_to renamed proc (file_path os source) (text "file") ts) {
              metadata = some (text "{\"destination\":\"" ++ (dest ++ text "\"}"));
            }
            ∷ [];
        details = merge_file (instigator_details os proc) file_details;
      })
  event_parts proc ts (Event.notify_open f) = some (file_event proc f opened ts)
  event_parts proc ts (Event.notify_close target) = some (file_event proc target closed ts)
  event_parts proc ts (Event.notify_uipc_bind dir filename mode) =
      some (socket_path_event proc (join_dir_filename os dir filename) (some mode) uipc_bound ts)
  event_parts proc ts (Event.notify_uipc_connect f) = some (socket_event proc f uipc_connected ts)
  event_parts proc ts Event.unmodelled = none

  -- The `NormalisedEvent` at the end of `normalise_message`.
  unfoldable pub assemble : Text → ℤ → Parts → NormalisedEvent
  assemble event_name ts parts = record {
    event_name = event_name;
    timestamp_unix_ns = ts;
    nodes = parts.nodes;
    edges = parts.edges;
    details = if is_empty_details parts.details then none else some parts.details;
    raw_json = none;
  }

  unfoldable pub normalise_event : Message → Event → Outcome EsfError (Option NormalisedEvent)
  normalise_event msg event = elim (es_type_to_event_name msg.event_type) [
    | none ↦ err (normalise (text "unsupported event type: " ++ os.debug_type msg.event_type))
    | some event_name ↦ elim (event_parts msg.process (msg_time_ns msg) event) [
      | some parts ↦ ok (some (assemble event_name (msg_time_ns msg) parts))
      | none ↦ ok none
    ]
  ]

  unfoldable pub normalise_message : Message → Outcome EsfError (Option NormalisedEvent)
  normalise_message msg = elim msg.event [ none ↦ ok none | some event ↦ normalise_event msg event ]
