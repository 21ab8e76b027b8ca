-- ===== src/Esf/Normalise/Details.antt =====
-- What a normalised event records of its message, column by column: each as a function of the event,
-- where the source goes event by event.
use mathlib.Core.Option
use esgraph.Prelude.{
  ℕ, Bool, false, ◌≡◌, refl, sym, subst, ap, ◌∙◌, Option, none, some, List, [], ◌∷◌, ◌++◌, map, ok,
}
use esgraph.Prelude.Int.{ℤ, show_int}
use esgraph.Prelude.Text.{Text, text}
use esgraph.Core.Model.{GraphNode, process, file, socket, GraphEdge, EventDetails, NormalisedEvent}
use esgraph.Esf.Endpoint.{OsStr, File, Process, CreateDestination, Event, Message}
use esgraph.Esf.Normalise.Parts.{
  OsText, msg_time_ns, audit_token_hex, process_path, file_path, process_node, file_from_esf,
  instigator_details, with_exec, with_exit, merge_file, join_dir_filename, rename_dest_path,
}
use esgraph.Esf.Normalise.Message.{Parts, event_parts, assemble, normalise_message}
use esgraph.Esf.Normalise.Graph.{Holds, assemble-details, normalise_message-parts}

-- The file of an event that is there, with its `stat`.
abbrev pub file_of : Event → Option File
file_of (Event.notify_create (some (CreateDestination.existing_file f))) = some f
file_of (Event.notify_write target) = some target
file_of (Event.notify_unlink target) = some target
file_of (Event.notify_rename source destination) = some source
file_of (Event.notify_open f) = some f
file_of (Event.notify_close target) = some target
file_of _ = none

-- The mode: of a file that is there, or of what is to be made.
abbrev pub mode_of : Event → Option ℕ
mode_of (Event.notify_create (some (CreateDestination.new_path directory filename mode))) =
    some mode
mode_of (Event.notify_uipc_bind dir filename mode) = some mode
mode_of event = Option.map (λ (f : File). f.st_mode) (file_of event)

-- The process that a program is executed in, and its arguments.
abbrev pub executed_of : Event → Option (Process × List OsStr)
executed_of (Event.notify_exec target argv) = some (target, argv)
executed_of _ = none

-- Whether the path is cut: of a file that is there, the source takes it from the file; of one that is
-- to be made, it says nothing.
abbrev pub truncated_of : Event → Option Bool
truncated_of event = Option.map (λ (f : File). f.path_truncated) (file_of event)

abbrev pub status_of : Event → Option ℤ
status_of (Event.notify_exit status) = some status
status_of _ = none

-- Another process that the event names, in which no program is executed.
abbrev pub process_of : Event → Option Process
process_of (Event.notify_fork child) = some child
process_of (Event.notify_remote_thread_create target) = some target
process_of (Event.notify_get_task target) = some target
process_of _ = none

module _ (os : OsText) where
  -- The path of a file that is to be made.
  abbrev pub new_path_of : Event → Option (Text × ℕ)
  new_path_of (Event.notify_create (some (CreateDestination.new_path directory filename mode))) =
      some (join_dir_filename os directory filename, mode)
  new_path_of _ = none

  abbrev pub socket_of : Event → Option Text
  socket_of (Event.notify_uipc_bind dir filename mode) = some (join_dir_filename os dir filename)
  socket_of (Event.notify_uipc_connect f) = some (file_path os f)
  socket_of _ = none

  abbrev pub metadata_of : Event → Option Text
  metadata_of (Event.notify_exit status) =
      some (text "{\"exit_status\":" ++ (show_int status ++ text "}"))
  metadata_of (Event.notify_rename source destination) =
      some (text "{\"destination\":\"" ++ (rename_dest_path os destination ++ text "\"}"))
  metadata_of _ = none

  abbrev pub args_of : List OsStr → List Text
  args_of argv = map os.to_string_lossy argv

  -- What the details of an event hold, column by column.
  abbrev pub details_of : Process → Event → EventDetails
  details_of proc event = record {
    instigator_pid = some proc.audit_token.pid;
    instigator_euid = some proc.audit_token.euid;
    instigator_egid = some proc.audit_token.egid;
    instigator_path = some (os.to_string_lossy proc.executable.path);
    instigator_audit_token_hex = some proc.audit_token.lower_hex;
    target_audit_token_hex =
        Option.map (λ (e : Process × List OsStr). e.0.audit_token.lower_hex) (executed_of event);
    target_path =
        Option.map (λ (e : Process × List OsStr). os.to_string_lossy e.0.executable.path)
          (executed_of event);
    exec_args = Option.map (λ (e : Process × List OsStr). args_of e.1) (executed_of event);
    exit_status = status_of event;
    file_mode = mode_of event;
    file_inode = Option.map (λ (f : File). f.st_ino) (file_of event);
    file_owner_uid = Option.map (λ (f : File). f.st_uid) (file_of event);
    file_owner_gid = Option.map (λ (f : File). f.st_gid) (file_of event);
    path_truncated = truncated_of event;
  }

  -- The nodes of an event: the instigator, and what it acts on.
  abbrev pub made_file : Text × ℕ → GraphNode
  made_file (path, mode) = file (record {
    path = path;
    inode = none;
    mode = some mode;
    owner_uid = none;
    owner_gid = none;
    path_truncated = false;
  })

  abbrev pub node_if : {A : Type 0} → (A → GraphNode) → Option A → List GraphNode
  node_if f none = []
  node_if f (some a) = f a ∷ []

  abbrev pub nodes_of : Process → Event → List GraphNode
  nodes_of proc event =
      process (process_node os proc none (status_of event))
        ∷ node_if (λ e. process (process_node os e.0 (some (args_of e.1)) none)) (executed_of event)
      ++ node_if (λ p. process (process_node os p none none)) (process_of event)
      ++ node_if (λ f. file (file_from_esf os f).0) (file_of event)
      ++ node_if made_file (new_path_of event)
      ++ node_if (λ path. socket (record { path = path })) (socket_of event)

  record IsMadeOf (proc : Process) (event : Event) (parts : Parts) : Type 0 where
    details : parts.details ≡ details_of proc event
    nodes : parts.nodes ≡ nodes_of proc event
    metadata : map (λ (e : GraphEdge). e.metadata) parts.edges ≡ metadata_of event ∷ []

  event_parts-IsMadeOf :
      (proc : Process) (ts : ℤ) (event : Event)
      → Holds (IsMadeOf proc event) (event_parts os proc ts event)
  unfolding event_parts process_node instigator_details with_exec with_exit merge_file file_from_esf
      process_path audit_token_hex
  event_parts-IsMadeOf proc ts (Event.notify_create (some CreateDestination.other)) = tt
  event_parts-IsMadeOf proc ts (Event.notify_create none) = tt
  event_parts-IsMadeOf proc ts Event.unmodelled = tt
  event_parts-IsMadeOf proc ts _ = record { details = refl; nodes = refl; metadata = refl }

  -- What a normalised event records of the event of its message.
  pub record IsRecordOf (msg : Message) (ev : NormalisedEvent) : Type 0 where
    pub event : Event
    pub is_event : msg.event ≡ some event
    pub details : ev.details ≡ some (details_of msg.process event)
    pub nodes : ev.nodes ≡ nodes_of msg.process event
    pub metadata : map (λ (e : GraphEdge). e.metadata) ev.edges ≡ metadata_of event ∷ []

  -- A normalised event records the process that caused the message, the process, file or socket that
  -- its event is about, and in its details the columns that this kind of event has and no others: the
  -- program executed and its arguments for an execution, the status for an exit, the mode and the
  -- file's columns for a file that is there, and the mode alone for a path that is to be made.
  pub normalise_message-IsRecordOf :
      (msg : Message) {ev : NormalisedEvent}
      → normalise_message os msg ≡ ok (some ev)
      → IsRecordOf msg ev
  normalise_message-IsRecordOf msg h =
      let (event, name, parts, has, named, is, whole) = normalise_message-parts os msg h in
      let made : IsMadeOf msg.process event parts =
        subst (Holds (IsMadeOf msg.process event)) is
          (event_parts-IsMadeOf msg.process (msg_time_ns msg) event) in
      subst (IsRecordOf msg) (sym whole) (record {
        event = event;
        is_event = has;
        details =
            assemble-details os name (msg_time_ns msg) parts
              (ap (λ d. d.instigator_pid) made.details)
            ∙ ap some made.details;
        nodes = unfold assemble in made.nodes;
        metadata = unfold assemble in made.metadata;
      })
