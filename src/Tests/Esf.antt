-- ===== src/Tests/Esf.antt =====
-- Messages of the Endpoint Security Framework, normalised and handled.
use esgraph.Prelude.{
  ap, ◌∙◌, ◌≡◌, ℕ, refl, subst, Option, none, some, List, [], ◌∷◌, All, Outcome, ok,
}
use esgraph.Prelude.Text.{Text, text}
use esgraph.Core.Model.{NormalisedEvent}
use esgraph.Core.Events.{EsEventName}
use esgraph.Store.Batch.Writable.{IsIngestible}
use esgraph.Esf.Endpoint.{Message, Event}
use esgraph.Esf.Errors.{EsfError}
use esgraph.Esf.Subscribe.{es_type_to_event_name, es_event_name_to_type}
use esgraph.Esf.Normalise.Message.{normalise_message, normalise_event, event_parts}
use esgraph.Esf.Normalise.Parts.{audit_token_hex}
use esgraph.Esf.Normalise.Graph.{IsEventOf, normalise_message-IsEventOf}
use esgraph.Esf.Normalise.Details.{IsRecordOf, normalise_message-IsRecordOf}
use esgraph.Esf.Normalise.Kinds.{name_of, IsNamed, normalise_message-IsNamed}
use esgraph.Esf.Normalise.Ingestible.{HasHex, processes, HasTable, normalise_message-HasTable}
use esgraph.Esf.Collector.{
  handle_messages, answered, awaiting, sent, HasTokens, answered-handle_messages, sent-IsIngestible,
}
use esgraph.Tests.Samples.{
  ascii, shell, exec_message, fork_message, open_message, auth_message, fork_event,
}

abbrev normalised : Message → Outcome EsfError (Option NormalisedEvent)
normalised msg = normalise_message ascii msg

-- The event of a result, where it has one.
abbrev event_of : Outcome EsfError (Option NormalisedEvent) → NormalisedEvent
event_of (ok (some ev)) = ev
event_of r = fork_event []

abbrev pub forked_event : NormalisedEvent
forked_event = event_of (normalised fork_message)

abbrev opened_event : NormalisedEvent
opened_event = event_of (normalised open_message)

fork_is_normalised : normalised fork_message ≡ ok (some forked_event)
unfolding normalise_message normalise_event event_parts es_type_to_event_name
fork_is_normalised = refl

open_is_normalised : normalised open_message ≡ ok (some opened_event)
unfolding normalise_message normalise_event event_parts es_type_to_event_name
open_is_normalised = refl

abbrev executed_event : NormalisedEvent
executed_event = event_of (normalised exec_message)

exec_is_normalised : normalised exec_message ≡ ok (some executed_event)
unfolding normalise_message normalise_event event_parts es_type_to_event_name
exec_is_normalised = refl

normalise_message-IsRecordOf_example : IsRecordOf ascii exec_message executed_event
normalise_message-IsRecordOf_example =
    normalise_message-IsRecordOf ascii exec_message exec_is_normalised

-- The event of that message is one of an execution, and so is its type.
exec_type :
    (event : Event) (name : EsEventName)
    → exec_message.event ≡ some event
    → name_of event ≡ some name
    → exec_message.event_type ≡ es_event_name_to_type name
unfolding es_event_name_to_type
exec_type event name has named =
    let is : Event.notify_exec (shell (text "c3")) (text "sh" ∷ text "-c" ∷ []) ≡ event = cc in
    let same : ◌≡◌ {A = Option EsEventName} (some EsEventName.notify_exec) (some name) =
      ap name_of is ∙ named in
    let name_is : EsEventName.notify_exec ≡ name = cc in ap es_event_name_to_type name_is

normalise_message-IsNamed_example : IsNamed executed_event.event_name executed_event.edges
normalise_message-IsNamed_example =
    normalise_message-IsNamed ascii exec_message (record { typed = exec_type }) exec_is_normalised

auth_is_skipped : normalised auth_message ≡ ok none
unfolding normalise_message normalise_event event_parts es_type_to_event_name
auth_is_skipped = refl

normalise_message-IsEventOf_example : IsEventOf fork_message forked_event
normalise_message-IsEventOf_example =
    normalise_message-IsEventOf ascii fork_message fork_is_normalised

normalise_message-HasTable_example : All HasTable opened_event.edges
normalise_message-HasTable_example =
    normalise_message-HasTable ascii open_message open_is_normalised

has_hex : (c : ℕ) (hex : Text) → HasHex (shell (c ∷ hex))
unfolding audit_token_hex
has_hex c hex h = cc

abbrev pub messages : List Message
messages = fork_message ∷ auth_message ∷ []

answered-handle_messages_example : answered (handle_messages ascii messages) ≡ awaiting messages
answered-handle_messages_example = answered-handle_messages ascii messages

pub fork-HasTokens : HasTokens fork_message
fork-HasTokens = record {
  instigator = has_hex b'a' (text "1");
  others = λ event h.
      subst (λ e. All HasHex (processes e)) {x = Event.notify_fork (shell (text "b2"))} {y = event}
        (cc) (has_hex b'b' (text "2"), tt);
}

pub auth-HasTokens : HasTokens auth_message
auth-HasTokens = record {
  instigator = has_hex b'a' (text "1");
  others =
      λ event h. subst (λ e. All HasHex (processes e)) {x = Event.unmodelled} {y = event} (cc) tt;
}

sent-IsIngestible_example : All IsIngestible (sent (handle_messages ascii messages))
sent-IsIngestible_example = sent-IsIngestible ascii messages (fork-HasTokens, (auth-HasTokens, tt))
