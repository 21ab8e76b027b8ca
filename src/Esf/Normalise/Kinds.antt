-- ===== src/Esf/Normalise/Kinds.antt =====
-- The name of a normalised event and the kind of its edge.
use esgraph.Prelude.{◌≡◌, refl, subst, ap, ◌∙◌, Option, none, some, List, All, ok}
use esgraph.Prelude.Int.{ℤ}
use esgraph.Prelude.Text.{Text}
use esgraph.Core.Model.{
  EdgeKind, executed, forked, exited, remote_thread_created, got_task, created, wrote, unlinked,
  renamed, opened, closed, uipc_bound, uipc_connected, GraphEdge, NormalisedEvent,
}
use esgraph.Core.Events.{EsEventName, to_string}
use esgraph.Esf.Endpoint.{Process, CreateDestination, Event, Message}
use esgraph.Esf.Subscribe.{
  es_type_to_event_name, es_event_name_to_type, es_type_to_event_name-es_event_name_to_type,
}
use esgraph.Esf.Normalise.Parts.{OsText, msg_time_ns}
use esgraph.Esf.Normalise.Message.{Parts, event_parts, assemble, normalise_message}
use esgraph.Esf.Normalise.Graph.{Holds, normalise_message-parts}

-- The name under which an event of the crate is subscribed to; none for those that the source does
-- not tell apart.
abbrev pub name_of : Event → Option EsEventName
name_of (Event.notify_exec target argv) = some EsEventName.notify_exec
name_of (Event.notify_fork child) = some EsEventName.notify_fork
name_of (Event.notify_exit status) = some EsEventName.notify_exit
name_of (Event.notify_remote_thread_create target) = some EsEventName.notify_remote_thread_create
name_of (Event.notify_get_task target) = some EsEventName.notify_get_task
name_of (Event.notify_create destination) = some EsEventName.notify_create
name_of (Event.notify_write target) = some EsEventName.notify_write
name_of (Event.notify_unlink target) = some EsEventName.notify_unlink
name_of (Event.notify_rename source destination) = some EsEventName.notify_rename
name_of (Event.notify_open f) = some EsEventName.notify_open
name_of (Event.notify_close target) = some EsEventName.notify_close
name_of (Event.notify_uipc_bind dir filename mode) = some EsEventName.notify_uipc_bind
name_of (Event.notify_uipc_connect f) = some EsEventName.notify_uipc_connect
name_of Event.unmodelled = none

-- The kind of edge that the documentation gives for a name; none for the AUTH events, which are not
-- recorded.
abbrev pub kind_of : EsEventName → Option EdgeKind
kind_of EsEventName.notify_exec = some executed
kind_of EsEventName.notify_fork = some forked
kind_of EsEventName.notify_exit = some exited
kind_of EsEventName.notify_remote_thread_create = some remote_thread_created
kind_of EsEventName.notify_get_task = some got_task
kind_of EsEventName.notify_create = some created
kind_of EsEventName.notify_write = some wrote
kind_of EsEventName.notify_unlink = some unlinked
kind_of EsEventName.notify_rename = some renamed
kind_of EsEventName.notify_open = some opened
kind_of EsEventName.notify_close = some closed
kind_of EsEventName.notify_uipc_bind = some uipc_bound
kind_of EsEventName.notify_uipc_connect = some uipc_connected
kind_of EsEventName.auth_exec = none
kind_of EsEventName.auth_open = none

-- The event of a message is of the message's type, as the crate makes it.
pub record IsTyped (msg : Message) : Type 0 where
  pub typed :
      (event : Event) (name : EsEventName)
      → msg.event ≡ some event
      → name_of event ≡ some name
      → msg.event_type ≡ es_event_name_to_type name

-- The name of an event and the kind of its one edge belong together.
pub record IsNamed (text_is : Text) (edges : List GraphEdge) : Type 0 where
  pub name : EsEventName
  pub text_of : text_is ≡ to_string name
  pub kinds : All (λ (e : GraphEdge). kind_of name ≡ some e.kind) edges

module _ (os : OsText) where
  record HasKind (event : Event) (parts : Parts) : Type 0 where
    name : EsEventName
    named : name_of event ≡ some name
    kinds : All (λ (e : GraphEdge). kind_of name ≡ some e.kind) parts.edges

  event_parts-HasKind :
      (proc : Process) (ts : ℤ) (event : Event)
      → Holds (HasKind event) (event_parts os proc ts event)
  unfolding event_parts
  event_parts-HasKind proc ts (Event.notify_create (some CreateDestination.other)) = tt
  event_parts-HasKind proc ts (Event.notify_create none) = tt
  event_parts-HasKind proc ts Event.unmodelled = tt
  event_parts-HasKind proc ts _ = record { name = _; named = refl; kinds = (refl, tt) }

  -- If the event of a message is of the message's type, then the edge of the normalised event is of
  -- the kind that belongs to its name.
  pub normalise_message-IsNamed :
      (msg : Message) {ev : NormalisedEvent}
      → IsTyped msg
      → normalise_message os msg ≡ ok (some ev)
      → IsNamed ev.event_name ev.edges
  normalise_message-IsNamed msg typed h =
      let (event, name, parts, has, named, is, whole) = normalise_message-parts os msg h in
      let made : HasKind event parts =
        subst (Holds (HasKind event)) is
          (event_parts-HasKind msg.process (msg_time_ns msg) event) in
      let known : es_type_to_event_name msg.event_type ≡ some (to_string made.name) =
        ap es_type_to_event_name (typed.typed event made.name has made.named)
        ∙ es_type_to_event_name-es_event_name_to_type made.name in
      let same : name ≡ to_string made.name = cc in
      rw whole (unfold assemble in record { name = made.name; text_of = same; kinds = made.kinds })
