-- ===== src/Esf/Normalise/Graph.antt =====
-- What a normalised event is made of, whatever the message holds.
use esgraph.Prelude.{
  ◌≡◌, refl, sym, subst, ◌⊎◌, inl, inr, Option, none, some, List, [], ◌∷◌, length, All, ok, arith,
}
use esgraph.Prelude.Int.{ℤ}
use esgraph.Prelude.Text.{Text}
use esgraph.Core.Model.{
  GraphNode, id, kind_label, GraphEdge, EventDetails, is_empty_details, NormalisedEvent,
}
use esgraph.Esf.Endpoint.{Process, CreateDestination, Event, Message}
use esgraph.Esf.Subscribe.{es_type_to_event_name}
use esgraph.Esf.Normalise.Parts.{
  OsText, msg_time_ns, audit_token_hex, process_node, file_from_esf, instigator_details, with_exec,
  with_exit, merge_file,
}
use esgraph.Esf.Normalise.Message.{Parts, event_parts, assemble, normalise_event, normalise_message}

-- A node of that id and kind stands in the list.
abbrev pub HasNode : List GraphNode → Text → Text → Type 0
HasNode [] i k = ⊥
HasNode (node ∷ rest) i k = ((id node ≡ i) × (kind_label node ≡ k)) ⊎ HasNode rest i k

-- An edge of the event: it comes from the instigator, and both its ends are nodes of the event.
pub record IsEdgeOf (proc : Process) (ts : ℤ) (nodes : List GraphNode) (edge : GraphEdge)
    : Type 0 where
  pub from_instigator : edge.src_id ≡ audit_token_hex proc
  pub source : HasNode nodes edge.src_id edge.src_kind
  pub target : HasNode nodes edge.dst_id edge.dst_kind
  pub at_time : edge.timestamp_unix_ns ≡ ts

-- The shape of what each arm of `normalise_message` computes.
pub record IsShape (proc : Process) (ts : ℤ) (parts : Parts) : Type 0 where
  pub edges : All (IsEdgeOf proc ts parts.nodes) parts.edges
  pub one_edge : length parts.edges ≡ 1
  pub has_pid : parts.details.instigator_pid ≡ some proc.audit_token.pid

abbrev pub Holds : {A : Type 0} → (A → Type 0) → Option A → Type 0
Holds P none = Unit
Holds P (some a) = P a

-- What every normalised event of a message is.
pub record IsEventOf (msg : Message) (ev : NormalisedEvent) : Type 0 where
  pub named : es_type_to_event_name msg.event_type ≡ some ev.event_name
  pub stamped : ev.timestamp_unix_ns ≡ msg_time_ns msg
  pub edges : All (IsEdgeOf msg.process (msg_time_ns msg) ev.nodes) ev.edges
  pub one_edge : length ev.edges ≡ 1
  pub details :
      (d : EventDetails) × (ev.details ≡ some d)
      × (d.instigator_pid ≡ some msg.process.audit_token.pid)

-- An edge from the first of two nodes to the second.
joins_two :
    (proc : Process) (ts : ℤ) (a b : GraphNode) (edge : GraphEdge) (details : EventDetails)
    → edge.src_id ≡ audit_token_hex proc
    → (id a ≡ edge.src_id) × (kind_label a ≡ edge.src_kind)
    → (id b ≡ edge.dst_id) × (kind_label b ≡ edge.dst_kind)
    → edge.timestamp_unix_ns ≡ ts
    → details.instigator_pid ≡ some proc.audit_token.pid
    → IsShape proc ts (record { nodes = a ∷ b ∷ []; edges = edge ∷ []; details = details })
joins_two proc ts a b edge details instigator from to at pid = record {
  edges = (
    record { from_instigator = instigator; source = inl from; target = inr (inl to); at_time = at },
    tt,
  );
  one_edge = refl;
  has_pid = pid;
}

module _ (os : OsText) where
  event_parts-IsShape :
      (proc : Process) (ts : ℤ) (event : Event)
      → Holds (IsShape proc ts) (event_parts os proc ts event)
  unfolding event_parts process_node id kind_label instigator_details with_exec with_exit merge_file
      file_from_esf
  event_parts-IsShape proc ts (Event.notify_exec target argv) =
      joins_two proc ts _ _ _ _ refl (refl, refl) (refl, refl) refl refl
  event_parts-IsShape proc ts (Event.notify_fork child) =
      joins_two proc ts _ _ _ _ refl (refl, refl) (refl, refl) refl refl
  event_parts-IsShape proc ts (Event.notify_exit status) = record {
    edges = (
      record {
        from_instigator = refl;
        source = inl (refl, refl);
        target = inl (refl, refl);
        at_time = refl;
      },
      tt,
    );
    one_edge = refl;
    has_pid = refl;
  }
  event_parts-IsShape proc ts (Event.notify_create (some CreateDestination.other)) = tt
  event_parts-IsShape proc ts (Event.notify_create none) = tt
  event_parts-IsShape proc ts Event.unmodelled = tt
  event_parts-IsShape proc ts (Event.notify_remote_thread_create target) =
      joins_two proc ts _ _ _ _ refl (refl, refl) (refl, refl) refl refl
  event_parts-IsShape proc ts (Event.notify_get_task target) =
      joins_two proc ts _ _ _ _ refl (refl, refl) (refl, refl) refl refl
  event_parts-IsShape proc ts (Event.notify_create (some (CreateDestination.existing_file f))) =
      joins_two proc ts _ _ _ _ refl (refl, refl) (refl, refl) refl refl
  event_parts-IsShape proc ts
        (Event.notify_create (some (CreateDestination.new_path directory filename mode))) =
      joins_two proc ts _ _ _ _ refl (refl, refl) (refl, refl) refl refl
  event_parts-IsShape proc ts (Event.notify_write target) =
      joins_two proc ts _ _ _ _ refl (refl, refl) (refl, refl) refl refl
  event_parts-IsShape proc ts (Event.notify_unlink target) =
      joins_two proc ts _ _ _ _ refl (refl, refl) (refl, refl) refl refl
  event_parts-IsShape proc ts (Event.notify_rename source destination) =
      joins_two proc ts _ _ _ _ refl (refl, refl) (refl, refl) refl refl
  event_parts-IsShape proc ts (Event.notify_open f) =
      joins_two proc ts _ _ _ _ refl (refl, refl) (refl, refl) refl refl
  event_parts-IsShape proc ts (Event.notify_close target) =
      joins_two proc ts _ _ _ _ refl (refl, refl) (refl, refl) refl refl
  event_parts-IsShape proc ts (Event.notify_uipc_bind dir filename mode) =
      joins_two proc ts _ _ _ _ refl (refl, refl) (refl, refl) refl refl
  event_parts-IsShape proc ts (Event.notify_uipc_connect f) =
      joins_two proc ts _ _ _ _ refl (refl, refl) (refl, refl) refl refl

  normalise_event-parts :
      (msg : Message) (event : Event) {ev : NormalisedEvent}
      → normalise_event os msg event ≡ ok (some ev)
      → (name : Text) × (parts : Parts) × (es_type_to_event_name msg.event_type ≡ some name)
        × (event_parts os msg.process (msg_time_ns msg) event ≡ some parts)
        × (ev ≡ assemble os name (msg_time_ns msg) parts)
  unfolding normalise_event
  normalise_event-parts msg event h = ground arith

  normalise_message-event :
      (msg : Message) {ev : NormalisedEvent}
      → normalise_message os msg ≡ ok (some ev)
      → (event : Event) × (msg.event ≡ some event) × (normalise_event os msg event ≡ ok (some ev))
  unfolding normalise_message
  normalise_message-event msg h = ground arith

  -- A message that is normalised held an event of a known type, whose arm gave the parts.
  pub normalise_message-parts :
      (msg : Message) {ev : NormalisedEvent}
      → normalise_message os msg ≡ ok (some ev)
      → (event : Event) × (name : Text) × (parts : Parts) × (msg.event ≡ some event)
        × (es_type_to_event_name msg.event_type ≡ some name)
        × (event_parts os msg.process (msg_time_ns msg) event ≡ some parts)
        × (ev ≡ assemble os name (msg_time_ns msg) parts)
  normalise_message-parts msg h =
      let (event, has, arm) = normalise_message-event msg h in
      let (name, parts, named, is, whole) = normalise_event-parts msg event arm in
      (event, name, parts, has, named, is, whole)

  pub assemble-details :
      (name : Text) (ts : ℤ) (parts : Parts) {pid : ℤ}
      → parts.details.instigator_pid ≡ some pid
      → (assemble os name ts parts).details ≡ some parts.details
  unfolding assemble is_empty_details
  assemble-details name ts parts h = ground arith

  -- A normalised event is stamped with the time of its message and named after its type. It has one
  -- edge, which comes from the process that caused the message at that time and joins two nodes of
  -- the event, and details that name that process.
  pub normalise_message-IsEventOf :
      (msg : Message) {ev : NormalisedEvent}
      → normalise_message os msg ≡ ok (some ev)
      → IsEventOf msg ev
  normalise_message-IsEventOf msg {ev} h =
      let (event, name, parts, has, named, is, whole) = normalise_message-parts msg h in
      let shape : IsShape msg.process (msg_time_ns msg) parts =
        subst (Holds (IsShape msg.process (msg_time_ns msg))) is
          (event_parts-IsShape msg.process (msg_time_ns msg) event) in
      subst (IsEventOf msg) (sym whole) (record {
        named = unfold assemble in named;
        stamped = unfold assemble in refl;
        edges = unfold assemble in shape.edges;
        one_edge = unfold assemble in shape.one_edge;
        details = (
          parts.details,
          assemble-details name (msg_time_ns msg) parts shape.has_pid,
          shape.has_pid,
        );
      })
