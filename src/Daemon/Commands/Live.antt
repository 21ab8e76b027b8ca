-- ===== src/Daemon/Commands/Live.antt =====
-- `cmd_run` of main.rs with `spawn_writer` of writer.rs: the collector and the writer are started, and
-- the command ends when both have. What the two threads see is given; `Daemon.Run` says which of it
-- can be seen together.
use esgraph.Prelude.{ℕ, List, [], ◌∷◌, ◌++◌, Bool, Option, none, some, Outcome, ok, err, panic}
use esgraph.Prelude.Int.{show_nat}
use esgraph.Prelude.Text.{Text, text}
use esgraph.Core.Config.{Config, StoreConfig}
use esgraph.Store.Statements.{StoreError}
use esgraph.Store.Batch.{IngestStats, StoreState}
use esgraph.Store.Graph.{from_config}
use esgraph.Store.Ingester.{graph_store}
use esgraph.Esf.Errors.{EsfError, unsupported_platform}
use esgraph.Esf.Collector.Mutes.{FileSystem}
use esgraph.Esf.Collector.Session.{ClientApi, run_collector}
use esgraph.Daemon.Writer.{Observed, Turn, running, left, failed, panicked, writer_loop}
use esgraph.Daemon.Commands.{
  World, install_handler, requires_macos, collector_error, Ended, Failure, graph_line,
}

-- What the threads of `cmd_run` see: the output of `sw_vers`, the flag at each poll of the collector,
-- what the turns of the writer find, and the time at which the writer starts.
pub record Seen : Type 0 where
  pub printed : Option Text
  pub polls : List Bool
  pub observed : List Observed
  pub now : ℕ

-- What `join` gives, with the database that the thread leaves, if it could open its store.
pub record Joined (Database DbError IoError : Type 0) : Type 0 where
  pub answer : Outcome (StoreError DbError IoError) IngestStats
  pub db : Option Database

abbrev pub ingested_line : IngestStats → Text
ingested_line stats =
    text "ingested "
    ++ (show_nat stats.events
        ++ (text " event(s), "
            ++ (show_nat stats.node_upserts
                ++ (text " node upsert(s), "
                    ++ (show_nat stats.edges_inserted ++ text " edge(s)")))))

-- What `cmd_run` prints behind the join; a writer that failed is only logged.
abbrev pub counter_lines :
    {DbError IoError : Type 0}
    → StoreConfig
    → Outcome (StoreError DbError IoError) IngestStats
    → List Text
counter_lines config (ok stats) = ingested_line stats ∷ graph_line config ∷ []
counter_lines config (err e) = []
counter_lines config panic = []

-- The thread is over where its loop was left, failed or panicked.
abbrev pub ended_thread :
    {Database DbError IoError : Type 0}
    → Turn (StoreState Database) (StoreError DbError IoError)
    → Option (Joined Database DbError IoError)
ended_thread (running w) = none
ended_thread (left w) = some (record { answer = ok w.total; db = some w.store.db })
ended_thread (failed e store) = some (record { answer = err e; db = some store.db })
ended_thread (panicked store) = some (record { answer = panic; db = some store.db })

module _
    {Database DbError IoError TomlError JsonError HandlerError Other FilePath Client NewError
      ClientError : Type 0}
    (world : World Database DbError IoError TomlError JsonError HandlerError Other)
    (fs : FileSystem FilePath) (api : ClientApi Client NewError ClientError)
    (io_text : IoError → Text) (toml_text : TomlError → Text) where
  -- The thread that `spawn_writer` starts, from the answer of `from_config` on.
  abbrev pub writer_thread :
      StoreConfig
      → Seen
      → Outcome (StoreError DbError IoError) (StoreState Database)
      → Option (Joined Database DbError IoError)
  unfolding writer_loop
  writer_thread config seen (ok store) = ended_thread (
      writer_loop (graph_store IoError world.driver world.to_json) config seen.observed store
        seen.now)
  writer_thread config seen (err e) = some (record { answer = err e; db = none })
  writer_thread config seen panic = some (record { answer = panic; db = none })

  unfoldable pub spawn_writer : StoreConfig → Seen → Option (Joined Database DbError IoError)
  unfolding writer_loop from_config
  spawn_writer config seen =
      writer_thread config seen (from_config world.driver world.display world.opener config)

  -- The last match of `cmd_run`.
  unfoldable pub exit_of : Outcome EsfError (Unit {0}) → Outcome (Failure world) (Unit {0})
  exit_of (ok u) = ok tt
  exit_of (err unsupported_platform) = err requires_macos
  exit_of (err e) = err (collector_error e)
  exit_of panic = panic

  -- The two results, where both threads are over; a panic of the collector comes before the join, and
  -- ends the program with what the writer has left.
  abbrev pub meet :
      Config
      → Option (Outcome EsfError (Unit {0}))
      → Option (Joined Database DbError IoError)
      → Option (Ended Database (Failure world))
  unfolding exit_of
  meet config none joined = none
  meet config (some panic) none = none
  meet config (some panic) (some joined) =
      some (record { result = panic; lines = []; db = joined.db })
  meet config (some (ok u)) none = none
  meet config (some (err e)) none = none
  meet config (some (ok u)) (some joined) =
      some (record {
        result = ok tt;
        lines = counter_lines config.store joined.answer;
        db = joined.db;
      })
  meet config (some (err e)) (some joined) = some (record {
    result = exit_of (err e);
    lines = counter_lines config.store joined.answer;
    db = joined.db;
  })

  -- `cmd_run`; nothing where a thread goes on beyond what is given.
  unfoldable pub cmd_run : Config → Seen → Option (Ended Database (Failure world))
  unfolding spawn_writer run_collector exit_of
  cmd_run config seen = elim (world.set_handler) [
    | ok u ↦
        meet config (run_collector fs api io_text toml_text seen.printed config seen.polls).result
          (spawn_writer config.store seen)
    | err e ↦ some (record { result = err (install_handler e); lines = []; db = none })
    | panic ↦ some (record { result = panic; lines = []; db = none })
  ]
