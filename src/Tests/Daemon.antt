-- ===== src/Tests/Daemon.antt =====
-- The writer thread over concrete observations.
use esgraph.Prelude.{err, ◌>>=◌, concat, ◌≡◌, ◌≢◌, refl, List, [], ◌∷◌, ◌++◌, ok, Outcome}
use esgraph.Prelude.Text.{Text, text}
use esgraph.Core.Model.{NormalisedEvent}
use esgraph.Core.Config.{StoreConfig}
use esgraph.Store.Batch.{IngestStats}
use esgraph.Store.Batch.Counts.{totals, add_stats}
use esgraph.Store.Ingester.{Ingester}
use esgraph.Daemon.Writer.{
  Observed, stopping, received, timed_out, disconnected, Writer, running, left, run, flush_batch,
  writer_loop, started,
}
use esgraph.Daemon.Writer.Ledger.{taken}
use esgraph.Daemon.Writer.Batches.{Ingested, writer_loop-Delivers}
use esgraph.Daemon.Writer.Ends.{run_ends}
use esgraph.Daemon.Replay.{Reader, load_fixtures, load_each, load_fixtures-concat}
use esgraph.Store.Batch.{Driver}
use esgraph.Store.Graph.{Row}
use esgraph.Tests.Samples.{fork_event}

pub counted :
    (events : List NormalisedEvent) {stats : IngestStats}
    → ◌≡◌ {A = Outcome (Unit {0}) IngestStats} (ok (totals events)) (ok stats)
    → stats ≡ totals events
counted events h = cc

-- A store that keeps the events it is given.
abbrev pub log : Ingester (List NormalisedEvent) (Unit {0})
log = record {
  ingest = λ events s. (ok (totals events), s ++ events);
  ingest-totals = λ events s stats h. counted events h;
}

abbrev pub config : StoreConfig
config = record { path = text "db"; batch_size = 2; flush_interval_ms = 1000 }

abbrev pub ev : Text → NormalisedEvent
ev t = fork_event t

-- Two events fill a batch, one is flushed when it is due, and two come with the shutdown.
abbrev observed : List Observed
observed =
    received (ev (text "a")) 10
    ∷ received (ev (text "b")) 20
    ∷ received (ev (text "c")) 30
    ∷ timed_out 1500 1500
    ∷ stopping (ev (text "d") ∷ ev (text "e") ∷ [])
    ∷ disconnected
    ∷ []

abbrev stopped : Writer (List NormalisedEvent)
stopped = record {
  store = ev (text "a") ∷ ev (text "b") ∷ ev (text "c") ∷ ev (text "d") ∷ ev (text "e") ∷ [];
  batch = [];
  total = record { events = 5; node_upserts = 5; edges_inserted = 5 };
  last_flush = 1500;
}

loop_stops : writer_loop log config observed [] 0 ≡ left stopped
unfolding writer_loop totals flush_batch add_stats
loop_stops = refl

writer_loop-Delivers_example : Ingested log (taken observed) [] stopped
writer_loop-Delivers_example = writer_loop-Delivers log config observed [] 0 loop_stops

run_ends_example :
    run log config (received (ev (text "a")) 10 ∷ disconnected ∷ []) (started log [] 0)
    ≢ running stopped
run_ends_example =
    run_ends log config (received (ev (text "a")) 10 ∷ []) disconnected [] (started log [] 0)
      stopped tt

-- A file system in which every file holds one event, by the text of its path.
abbrev pub files : Reader (Unit {0}) (Unit {0})
files = record {
  read_to_string = λ path. ok path;
  events_from_str = λ json. err tt;
  event_from_str = λ json. ok (ev json);
}

abbrev two_paths : List Text
two_paths = text "a" ∷ text "b" ∷ []

load_fixtures-concat_example :
    load_fixtures files two_paths ≡ (do parts ← load_each files two_paths; ok (concat parts))
load_fixtures-concat_example = load_fixtures-concat files two_paths

abbrev pub silent : Driver (List Text) (Unit {0}) (Row (Unit {0}))
silent = record { connect = λ db. ok tt; query = λ script db. (ok [], db) }
