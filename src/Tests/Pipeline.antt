-- ===== src/Tests/Pipeline.antt =====
-- The collector, the writer and the store on two messages.
use esgraph.Prelude.{true, false, ◌≡◌, refl, arith, List, [], ◌∷◌, ◌++◌}
use esgraph.Prelude.Text.{Text, text}
use esgraph.Core.Config.{StoreConfig}
use esgraph.Store.Statements.{StoreError}
use esgraph.Store.Batch.{StoreState, ingest_batch}
use esgraph.Store.Ingester.{graph_store}
use esgraph.Esf.Collector.{handle_messages, sent}
use esgraph.Daemon.Writer.{turn, finish, Observed, received, disconnected, Writer, left}
use esgraph.Daemon.Writer.Ledger.{all_events}
use esgraph.Daemon.Run.Conserves.{IsDelivered}
use esgraph.Daemon.Run.{
  gone, interrupt, close, see_flag, take, drain, hand_back, System, subscribed, launched,
  channel_capacity, Reach, here, ◌▷◌, subscribe, send,
}
use esgraph.Daemon.Run.Stored.{IsStored}
use esgraph.Daemon.Pipeline.{IsUp, handle_messages-IsStored, handle_messages-IsDelivered}
use esgraph.Tests.Daemon.{silent}
use esgraph.Tests.Esf.{messages, forked_event, fork-HasTokens, auth-HasTokens}
use esgraph.Tests.Samples.{ascii, no_json, fresh_store}

silent-IsUp : IsUp silent
silent-IsUp = record { connects = λ db. refl; runs = λ s ss known db. ([], refl) }

abbrev config : StoreConfig
config = record { path = text "db"; batch_size = 2; flush_interval_ms = 1000 }

abbrev arrivals : List Observed
arrivals = received forked_event 10 ∷ []

arrivals_are_sent :
    all_events (arrivals ++ disconnected ∷ []) ≡ sent (handle_messages ascii messages)
unfolding handle_messages sent esgraph.Esf.Normalise.Message.normalise_message
    esgraph.Esf.Normalise.Message.normalise_event esgraph.Esf.Subscribe.es_type_to_event_name
    esgraph.Esf.Normalise.Message.event_parts
arrivals_are_sent = refl

-- The collector has sent the event of the messages, and the writer has not looked yet.
abbrev sending : System (StoreState (List Text)) (StoreError (Unit {0}) (Unit {0}))
sending = record (launched (graph_store (Unit {0}) silent no_json) config fresh_store 0) {
  collector = subscribed;
  channel = forked_event ∷ [];
  sent = forked_event ∷ [];
}

sending_reached : Reach (graph_store (Unit {0}) silent no_json) config fresh_store 0 sending
unfolding channel_capacity
sending_reached = here ▷ subscribe refl ▷ send forked_event refl refl (omega arith)

handle_messages-IsStored_example :
    IsStored
      (graph_store (Unit {0}) silent no_json)
      config
      sending
      fresh_store
      (sent (handle_messages ascii messages))
handle_messages-IsStored_example =
    handle_messages-IsStored (Unit {0}) silent no_json ascii config messages fresh_store 0
      silent-IsUp (fork-HasTokens, (auth-HasTokens, tt)) sending_reached arrivals_are_sent refl

-- The flag is set, the collector and the writer have returned, and the event is written.
abbrev stored : Writer (StoreState (List Text))
stored = record {
  store = (ingest_batch {IoError = Unit {0}} silent no_json (forked_event ∷ []) fresh_store).1;
  batch = [];
  total = record { events = 1; node_upserts = 2; edges_inserted = 1 };
  last_flush = 0;
}

abbrev over : System (StoreState (List Text)) (StoreError (Unit {0}) (Unit {0}))
over = record sending {
  channel = [];
  shutdown = true;
  collector = gone;
  receiving = false;
  writer = left stored;
}

over_reached : Reach (graph_store (Unit {0}) silent no_json) config fresh_store 0 over
unfolding turn finish ingest_batch esgraph.Esf.Normalise.Message.normalise_message
    esgraph.Esf.Normalise.Message.normalise_event esgraph.Esf.Subscribe.es_type_to_event_name
    esgraph.Esf.Normalise.Message.event_parts esgraph.Esf.Normalise.Message.assemble
    esgraph.Store.Statements.merge_node_stmt esgraph.Esf.Normalise.Parts.process_node
    esgraph.Store.Statements.ensure_edge_endpoints esgraph.Store.Statements.insert_edge_stmt
    esgraph.Store.Batch.Counts.add_stats
over_reached =
    sending_reached
    ▷ interrupt
    ▷ close refl refl
    ▷ see_flag refl refl refl
    ▷ take refl refl refl
    ▷ drain refl refl refl
    ▷ hand_back refl refl

handle_messages-IsDelivered_example :
    (w : Writer (StoreState (List Text))) × (over.writer ≡ left w)
    × IsDelivered (graph_store (Unit {0}) silent no_json) config fresh_store 0 over w
handle_messages-IsDelivered_example =
    handle_messages-IsDelivered (Unit {0}) silent no_json ascii config messages fresh_store 0
      silent-IsUp (fork-HasTokens, (auth-HasTokens, tt)) over_reached arrivals_are_sent
      (record { collector_is = refl; writer_is = refl; receiver_is = refl })
