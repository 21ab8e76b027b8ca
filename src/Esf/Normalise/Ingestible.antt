-- ===== src/Esf/Normalise/Ingestible.antt =====
-- The store accepts what the normaliser makes: the tables exist, and the nodes have their keys.
use esgraph.Prelude.{◌≡◌, ◌≢◌, refl, sym, subst, true, none, some, List, [], ◌∷◌, All, All-mono, ok}
use esgraph.Prelude.Int.{ℤ}
use esgraph.Prelude.Text.{Text, text}
use esgraph.Core.Model.{GraphEdge, NormalisedEvent}
use esgraph.Store.Statements.{edge_kind_name, node_label}
use esgraph.Store.Schema.Tables.{has_rel_table}
use esgraph.Store.Batch.Writable.{HasToken, HasKinds, IsIngestible, node_label-IsKind}
use esgraph.Esf.Endpoint.{Process, CreateDestination, Event, Message}
use esgraph.Esf.Normalise.Parts.{OsText, msg_time_ns, process_node}
use esgraph.Esf.Normalise.Message.{Parts, event_parts, assemble, normalise_message}
use esgraph.Esf.Normalise.Graph.{Holds, normalise_message-parts}

-- The schema has a table for the kind of the edge, between the labels of its ends.
pub record HasTable (edge : GraphEdge) : Type 0 where
  pub src_label : Text
  pub dst_label : Text
  pub from : node_label {E = Unit {0}} edge.src_kind ≡ ok src_label
  pub to : node_label {E = Unit {0}} edge.dst_kind ≡ ok dst_label
  pub table : has_rel_table (edge_kind_name edge.kind) src_label dst_label ≡ true

HasTable-HasKinds : (edge : GraphEdge) → HasTable edge → HasKinds edge
HasTable-HasKinds edge t =
    (node_label-IsKind edge.src_kind t.from, node_label-IsKind edge.dst_kind t.to)

abbrev HasTables : Parts → Type 0
HasTables parts = All HasTable parts.edges

-- The processes of an event besides the one that caused it.
abbrev pub processes : Event → List Process
processes (Event.notify_exec target argv) = target ∷ []
processes (Event.notify_fork child) = child ∷ []
processes (Event.notify_remote_thread_create target) = target ∷ []
processes (Event.notify_get_task target) = target ∷ []
processes _ = []

abbrev pub HasHex : Process → Type 0
HasHex p = p.audit_token.lower_hex ≢ []

abbrev HasTokens : Parts → Type 0
HasTokens parts = All HasToken parts.nodes

-- The one edge of an event, which comes from a process.
one_table :
    {edge : GraphEdge} (label : Text)
    → node_label {E = Unit {0}} edge.src_kind ≡ ok (text "Process")
    → node_label {E = Unit {0}} edge.dst_kind ≡ ok label
    → has_rel_table (edge_kind_name edge.kind) (text "Process") label ≡ true
    → All HasTable (edge ∷ [])
one_table label from to table = (
  record { src_label = text "Process"; dst_label = label; from = from; to = to; table = table },
  tt,
)

module _ (os : OsText) where
  event_parts-HasTables :
      (proc : Process) (ts : ℤ) (event : Event) → Holds HasTables (event_parts os proc ts event)
  unfolding event_parts node_label edge_kind_name has_rel_table
  event_parts-HasTables proc ts (Event.notify_exec target argv) =
      one_table (text "Process") refl refl refl
  event_parts-HasTables proc ts (Event.notify_fork child) =
      one_table (text "Process") refl refl refl
  event_parts-HasTables proc ts (Event.notify_exit status) =
      one_table (text "Process") refl refl refl
  event_parts-HasTables proc ts (Event.notify_remote_thread_create target) =
      one_table (text "Process") refl refl refl
  event_parts-HasTables proc ts (Event.notify_get_task target) =
      one_table (text "Process") refl refl refl
  event_parts-HasTables proc ts (Event.notify_create (some (CreateDestination.existing_file f))) =
      one_table (text "File") refl refl refl
  event_parts-HasTables proc ts
        (Event.notify_create (some (CreateDestination.new_path directory filename mode))) =
      one_table (text "File") refl refl refl
  event_parts-HasTables proc ts (Event.notify_create (some CreateDestination.other)) = tt
  event_parts-HasTables proc ts (Event.notify_create none) = tt
  event_parts-HasTables proc ts (Event.notify_write target) = one_table (text "File") refl refl refl
  event_parts-HasTables proc ts (Event.notify_unlink target) =
      one_table (text "File") refl refl refl
  event_parts-HasTables proc ts (Event.notify_rename source destination) =
      one_table (text "File") refl refl refl
  event_parts-HasTables proc ts (Event.notify_open f) = one_table (text "File") refl refl refl
  event_parts-HasTables proc ts (Event.notify_close target) = one_table (text "File") refl refl refl
  event_parts-HasTables proc ts (Event.notify_uipc_bind dir filename mode) =
      one_table (text "Socket") refl refl refl
  event_parts-HasTables proc ts (Event.notify_uipc_connect f) =
      one_table (text "Socket") refl refl refl
  event_parts-HasTables proc ts Event.unmodelled = tt

  event_parts-HasTokens :
      (proc : Process) (ts : ℤ) (event : Event)
      → HasHex proc
      → All HasHex (processes event)
      → Holds HasTokens (event_parts os proc ts event)
  unfolding event_parts process_node
  event_parts-HasTokens proc ts (Event.notify_exec target argv) h hs = (h, hs)
  event_parts-HasTokens proc ts (Event.notify_fork child) h hs = (h, hs)
  event_parts-HasTokens proc ts (Event.notify_exit status) h hs = (h, tt)
  event_parts-HasTokens proc ts (Event.notify_remote_thread_create target) h hs = (h, hs)
  event_parts-HasTokens proc ts (Event.notify_get_task target) h hs = (h, hs)
  event_parts-HasTokens proc ts (Event.notify_create (some (CreateDestination.existing_file f))) h
        hs =
      (h, (tt, tt))
  event_parts-HasTokens proc ts
        (Event.notify_create (some (CreateDestination.new_path directory filename mode))) h hs =
      (h, (tt, tt))
  event_parts-HasTokens proc ts (Event.notify_create (some CreateDestination.other)) h hs = tt
  event_parts-HasTokens proc ts (Event.notify_create none) h hs = tt
  event_parts-HasTokens proc ts (Event.notify_write target) h hs = (h, (tt, tt))
  event_parts-HasTokens proc ts (Event.notify_unlink target) h hs = (h, (tt, tt))
  event_parts-HasTokens proc ts (Event.notify_rename source destination) h hs = (h, (tt, tt))
  event_parts-HasTokens proc ts (Event.notify_open f) h hs = (h, (tt, tt))
  event_parts-HasTokens proc ts (Event.notify_close target) h hs = (h, (tt, tt))
  event_parts-HasTokens proc ts (Event.notify_uipc_bind dir filename mode) h hs = (h, (tt, tt))
  event_parts-HasTokens proc ts (Event.notify_uipc_connect f) h hs = (h, (tt, tt))
  event_parts-HasTokens proc ts Event.unmodelled h hs = tt

  -- Every edge of a normalised event has a table of its kind in the schema, between the labels of the
  -- nodes that it joins.
  pub normalise_message-HasTable :
      (msg : Message) {ev : NormalisedEvent}
      → normalise_message os msg ≡ ok (some ev)
      → All HasTable ev.edges
  normalise_message-HasTable msg h =
      let (event, name, parts, has, named, is, whole) = normalise_message-parts os msg h in
      let tables =
        subst (Holds HasTables) is (event_parts-HasTables msg.process (msg_time_ns msg) event) in
      subst (λ (ev : NormalisedEvent). All HasTable ev.edges) (sym whole)
        (unfold assemble in tables)

  -- In a normalised event every process node has an audit token and every edge joins nodes of known
  -- kinds, if the tokens of the processes that the message names are not empty.
  pub normalise_message-IsIngestible :
      (msg : Message) (event : Event) {ev : NormalisedEvent}
      → HasHex msg.process
      → All HasHex (processes event)
      → msg.event ≡ some event
      → normalise_message os msg ≡ ok (some ev)
      → IsIngestible ev
  normalise_message-IsIngestible msg event {ev} h hs has e =
      let (event', name, parts, has', named, is, whole) = normalise_message-parts os msg e in
      let same : event ≡ event' = cc in
      let parted : event_parts os msg.process (msg_time_ns msg) event ≡ some parts = rw same is in
      let tokens =
        subst (Holds HasTokens) parted
          (event_parts-HasTokens msg.process (msg_time_ns msg) event h hs) in
      record {
        tokens =
            subst (λ (ev : NormalisedEvent). All HasToken ev.nodes) (sym whole)
              (unfold assemble in tokens);
        kinds =
            All-mono HasTable HasKinds ev.edges HasTable-HasKinds
              (normalise_message-HasTable msg e);
      }
