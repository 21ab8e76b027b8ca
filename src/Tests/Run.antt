-- ===== src/Tests/Run.antt =====
-- The threads of `run` over concrete steps.
use esgraph.Prelude.{
  ◌≤◌, ◌+◌, ◌⊎◌, true, false, ◌≡◌, refl, arith, List, [], ◌∷◌, ◌++◌, ok, ap, append_assoc,
}
use esgraph.Prelude.Text.{Text, text}
use esgraph.Core.Model.{NormalisedEvent}
use esgraph.Store.Statements.{StoreError, merge_node_stmt, ensure_edge_endpoints, insert_edge_stmt}
use esgraph.Store.Cypher.Script.{separator}
use esgraph.Store.Batch.{Driver, StoreState, ingest_batch}
use esgraph.Store.Batch.Counts.{add_stats}
use esgraph.Store.Batch.Joined.{RunsInOrder}
use esgraph.Store.Ingester.{Ingester, graph_store}
use esgraph.Daemon.Writer.{Writer, left, flush_batch, turn, finish, started, stopping}
use esgraph.Daemon.Run.{
  System, subscribed, Steps, Reach, here, ◌▷◌, subscribe, send, interrupt, look, receive, see_flag,
  take, drain, hand_back, after_turn, after_return, launched, channel_capacity,
}
use esgraph.Daemon.Run.Conserves.{IsDelivered, Reach-IsDelivered}
use esgraph.Daemon.Run.Bounded.{IsBounded, Reach-IsBounded}
use esgraph.Daemon.Run.Stops.{IsOver}
use esgraph.Daemon.Run.Ends.{count, count_sent, CanStep, Steps-IsOver}
use esgraph.Daemon.OneBatch.{Reach-ingest_batch}
use esgraph.Tests.Samples.{no_json}
use esgraph.Tests.Daemon.{log, config, ev}

-- A run in which the flag is set and the writer drains the channel before the collector, which has
-- not seen the flag yet, sends an event: the event is in the channel when the writer returns.
abbrev flagged : System (List NormalisedEvent) (Unit {0})
flagged = record (launched log config [] 0) { collector = subscribed; shutdown = true }

abbrev too_late : System (List NormalisedEvent) (Unit {0})
too_late = record (after_turn log config flagged (stopping []) [] (started log [] 0)) {
  channel = ev (text "a") ∷ [];
  sent = ev (text "a") ∷ [];
}

too_late_reached : Reach log config [] 0 too_late
unfolding channel_capacity
too_late_reached =
    here
    ▷ subscribe refl
    ▷ interrupt
    ▷ see_flag refl refl refl
    ▷ drain refl refl refl
    ▷ send (ev (text "a")) refl refl (omega arith)

abbrev lost : System (List NormalisedEvent) (Unit {0})
lost = after_return log config too_late

lost_reached : Reach log config [] 0 lost
unfolding turn
lost_reached = too_late_reached ▷ hand_back refl refl

nothing_written : lost.writer ≡ left (started log [] 0)
unfolding finish turn
nothing_written = refl

Reach-IsDelivered_example : IsDelivered log config [] 0 lost (started log [] 0)
Reach-IsDelivered_example = Reach-IsDelivered log config [] 0 lost_reached refl nothing_written

-- The same from the time at which the flag is set.
lost_from : Steps log config flagged lost
unfolding channel_capacity turn
lost_from =
    here
    ▷ see_flag refl refl refl
    ▷ drain refl refl refl
    ▷ send (ev (text "a")) refl refl (omega arith)
    ▷ hand_back refl refl

Steps-IsOver_example :
    (count log config lost_from ≤ 6 + 0 + count_sent log config lost_from)
    × (IsOver lost ⊎ CanStep log config lost)
Steps-IsOver_example = Steps-IsOver log config lost_from refl

Reach-IsBounded_example : IsBounded log config too_late
Reach-IsBounded_example = Reach-IsBounded log config [] 0 too_late_reached

-- A database that is the text of the statements it has run.
abbrev journal : Driver Text (Unit {0}) (Unit {0})
journal = record {
  connect = λ db. ok tt;
  query = λ script db. (ok [], db ++ (separator ++ script));
}

journal-RunsInOrder : RunsInOrder journal
journal-RunsInOrder = record {
  as_one = λ a b db rows more h k. ([], ap (λ d. (ok [], d)) (simp append_assoc));
}

abbrev JournalError : Type 0
JournalError = StoreError (Unit {0}) (Unit {0})

abbrev store : Ingester (StoreState Text) JournalError
store = graph_store (Unit {0}) journal no_json

abbrev empty_journal : StoreState Text
empty_journal = record { db = []; next_ingest_id = 1 }

-- Two events fill a batch, and a third comes with the shutdown.
abbrev three_sent : System (StoreState Text) JournalError
three_sent = record (launched store config empty_journal 0) {
  collector = subscribed;
  channel = ev (text "a") ∷ ev (text "b") ∷ ev (text "c") ∷ [];
  sent = ev (text "a") ∷ ev (text "b") ∷ ev (text "c") ∷ [];
}

three_sent_reached : Reach store config empty_journal 0 three_sent
unfolding channel_capacity
three_sent_reached =
    here
    ▷ subscribe refl
    ▷ send (ev (text "a")) refl refl (omega arith)
    ▷ send (ev (text "b")) refl refl (omega arith)
    ▷ send (ev (text "c")) refl refl (omega arith)

abbrev flushed : Writer (StoreState Text)
flushed = record {
  store =
      (ingest_batch {IoError = Unit {0}} journal no_json (ev (text "a") ∷ ev (text "b") ∷ [])
        empty_journal).1;
  batch = [];
  total = record { events = 2; node_upserts = 2; edges_inserted = 2 };
  last_flush = 20;
}

abbrev written : Writer (StoreState Text)
written = record {
  store = (ingest_batch {IoError = Unit {0}} journal no_json (ev (text "c") ∷ []) flushed.store).1;
  batch = [];
  total = record { events = 3; node_upserts = 3; edges_inserted = 3 };
  last_flush = 20;
}

-- The state in which the writer has returned.
abbrev all_written : System (StoreState Text) JournalError
all_written = record three_sent {
  channel = [];
  shutdown = true;
  receiving = false;
  writer = left written;
}

all_written_reached : Reach store config empty_journal 0 all_written
unfolding turn finish flush_batch add_stats ingest_batch merge_node_stmt ensure_edge_endpoints
    insert_edge_stmt
all_written_reached =
    three_sent_reached
    ▷ look refl refl refl
    ▷ receive 10 refl refl refl
    ▷ look refl refl refl
    ▷ receive 20 refl refl refl
    ▷ interrupt
    ▷ see_flag {w = flushed} refl refl refl
    ▷ take {w = flushed} refl refl refl
    ▷ drain {w = flushed} refl refl refl
    ▷ hand_back refl refl

Reach-ingest_batch_example :
    (taken : List NormalisedEvent) × (taken ++ [] ≡ all_written.sent)
    × (ingest_batch {IoError = Unit {0}} journal no_json taken empty_journal
        ≡ (ok written.total, written.store))
Reach-ingest_batch_example =
    Reach-ingest_batch (Unit {0}) journal no_json journal-RunsInOrder config empty_journal 0
      all_written_reached refl refl
