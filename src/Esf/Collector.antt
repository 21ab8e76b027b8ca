-- ===== src/Esf/Collector.antt =====
-- crates/esgraph-esf/src/collector.rs: the handler of messages. What it does to the outside world is
-- a list of effects, in order; a failure to answer or to send is logged and changes nothing else, so
-- the results of the two calls are not modelled.
pub mod Errors
pub mod Version
pub mod Mutes
pub mod Session
pub mod Waits
pub mod Subscribed
use esgraph.Prelude.{
  Bool, true, false, ◌≡◌, refl, sym, subst, ◌∙◌, Option, none, some, List, [], ◌∷◌, ◌++◌, All,
  if◌then◌else◌, Outcome, ok, err, panic,
}
use esgraph.Core.Model.{NormalisedEvent}
use esgraph.Store.Batch.Writable.{IsIngestible}
use esgraph.Esf.Endpoint.{Event, Message}
use esgraph.Esf.Errors.{EsfError}
use esgraph.Esf.Normalise.Parts.{OsText}
use esgraph.Esf.Normalise.Message.{normalise_message}
use esgraph.Esf.Normalise.Graph.{normalise_message-parts}
use esgraph.Esf.Normalise.Ingestible.{
  HasTable, processes, HasHex, normalise_message-HasTable, normalise_message-IsIngestible,
}

-- `respond_auth_result(ALLOW)` on the message, and `tx.send`.
pub data Effect : Type 0 where
  allow : Message → Effect
  send : NormalisedEvent → Effect

abbrev answer : Message → List Effect
answer msg = if msg.needs_answer then allow msg ∷ [] else []

abbrev forward : Outcome EsfError (Option NormalisedEvent) → List Effect
forward (ok (some ev)) = send ev ∷ []
forward (ok none) = []
forward (err e) = []
forward panic = []

unfoldable pub handle_message : OsText → Message → List Effect
handle_message os msg = answer msg ++ forward (normalise_message os msg)

-- The handler over the messages that the client delivers, one after the other.
unfoldable pub handle_messages : OsText → List Message → List Effect
unfolding handle_message
handle_messages os [] = []
handle_messages os (msg ∷ rest) = handle_message os msg ++ handle_messages os rest

-- The events that go to the writer.
unfoldable pub sent : List Effect → List NormalisedEvent
sent [] = []
sent (allow msg ∷ rest) = sent rest
sent (send ev ∷ rest) = ev ∷ sent rest

-- The messages that are answered.
unfoldable pub answered : List Effect → List Message
answered [] = []
answered (allow msg ∷ rest) = msg ∷ answered rest
answered (send ev ∷ rest) = answered rest

-- The messages that wait for an answer.
unfoldable pub awaiting : List Message → List Message
awaiting [] = []
awaiting (msg ∷ rest) = if msg.needs_answer then msg ∷ awaiting rest else awaiting rest

-- Every process that the message names has an audit token that is not empty.
pub record HasTokens (msg : Message) : Type 0 where
  pub instigator : HasHex msg.process
  pub others : (event : Event) → msg.event ≡ some event → All HasHex (processes event)

module _ (os : OsText) where
  -- What a message does, after what its answer and its event are.
  forward-answered :
      (r : Outcome EsfError (Option NormalisedEvent)) (rest : List Effect)
      → answered (forward r ++ rest) ≡ answered rest
  unfolding answered
  forward-answered (ok (some ev)) rest = refl
  forward-answered (ok none) rest = refl
  forward-answered (err e) rest = refl
  forward-answered panic rest = refl

  handled-answered :
      (b : Bool) (msg : Message) (r : Outcome EsfError (Option NormalisedEvent))
      (rest : List Effect)
      → answered (((if b then allow msg ∷ [] else []) ++ forward r) ++ rest)
        ≡ (if b then msg ∷ answered rest else answered rest)
  unfolding answered
  handled-answered true msg r rest = rw (forward-answered r rest) refl
  handled-answered false msg r rest = forward-answered r rest

  -- Exactly the messages that wait for an answer are answered, once each and in order, whether or
  -- not they can be normalised.
  pub answered-handle_messages :
      (msgs : List Message) → answered (handle_messages os msgs) ≡ awaiting msgs
  unfolding handle_messages awaiting answered
  answered-handle_messages [] = refl
  answered-handle_messages (msg ∷ rest) =
      let ih = answered-handle_messages rest in
      handled-answered msg.needs_answer msg (normalise_message os msg) (handle_messages os rest)
      ∙ (rw ih refl)

  forward-sent :
      (P : NormalisedEvent → Type 0) (r : Outcome EsfError (Option NormalisedEvent))
      (rest : List Effect)
      → ((ev : NormalisedEvent) → r ≡ ok (some ev) → P ev)
      → All P (sent rest)
      → All P (sent (forward r ++ rest))
  unfolding sent
  forward-sent P (ok (some ev)) rest h t = (h ev refl, t)
  forward-sent P (ok none) rest h t = t
  forward-sent P (err e) rest h t = t
  forward-sent P panic rest h t = t

  handled-sent :
      (b : Bool) (msg : Message) (r : Outcome EsfError (Option NormalisedEvent))
      (rest : List Effect)
      → sent (((if b then allow msg ∷ [] else []) ++ forward r) ++ rest) ≡ sent (forward r ++ rest)
  unfolding sent
  handled-sent true msg r rest = refl
  handled-sent false msg r rest = refl

  event_ok :
      (msg : Message)
      → HasTokens msg
      → (ev : NormalisedEvent) → normalise_message os msg ≡ ok (some ev)
      → IsIngestible ev
  event_ok msg h ev e =
      let (event, name, parts, has, named, is, whole) = normalise_message-parts os msg e in
      normalise_message-IsIngestible os msg event h.instigator (h.others event has) has e

  -- In every event that is sent to the writer the process nodes have audit tokens and the edges join
  -- nodes of known kinds, if the processes of the messages have tokens that are not empty.
  pub sent-IsIngestible :
      (msgs : List Message) → All HasTokens msgs → All IsIngestible (sent (handle_messages os msgs))
  unfolding handle_messages sent
  sent-IsIngestible [] h = tt
  sent-IsIngestible (msg ∷ rest) h =
      subst (All IsIngestible)
        (sym
          (handled-sent msg.needs_answer msg (normalise_message os msg) (handle_messages os rest)))
        (forward-sent IsIngestible (normalise_message os msg) (handle_messages os rest)
          (λ ev e. event_ok msg h.0 ev e) (sent-IsIngestible rest h.1))

  -- Every edge that is sent has a table in the schema.
  pub sent-HasTable :
      (msgs : List Message)
      → All (λ (ev : NormalisedEvent). All HasTable ev.edges) (sent (handle_messages os msgs))
  unfolding handle_messages sent
  sent-HasTable [] = tt
  sent-HasTable (msg ∷ rest) =
      let P : NormalisedEvent → Type 0 = λ ev. All HasTable ev.edges in
      subst (All P)
        (sym
          (handled-sent msg.needs_answer msg (normalise_message os msg) (handle_messages os rest)))
        (forward-sent P (normalise_message os msg) (handle_messages os rest)
          (λ ev e. normalise_message-HasTable os msg e) (sent-HasTable rest))
