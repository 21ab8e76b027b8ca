-- ===== src/Daemon/Commands/Replays.antt =====
-- What `esgraphd replay` prints, against the fixtures.
use esgraph.Prelude.{◌≡◌, refl, sym, ap, ◌∙◌, List, [], ◌∷◌, some, Outcome, ok, err, panic, arith}
use esgraph.Prelude.Text.{Text}
use esgraph.Core.Model.{NormalisedEvent}
use esgraph.Core.Config.{Config}
use esgraph.Store.Batch.{IngestStats}
use esgraph.Store.Batch.Counts.{totals}
use esgraph.Esf.Collector.Mutes.{FileSystem}
use esgraph.Esf.Collector.Session.{ClientApi}
use esgraph.Daemon.Replay.{ReplayError, load_fixtures, cmd_replay, cmd_replay-totals}
use esgraph.Daemon.Commands.{World, Ended, Failure, graph_line}
use esgraph.Daemon.Commands.Live.{Seen, ingested_line}
use esgraph.Daemon.Commands.Reads.{counts, read_counts, read_counts-ingested_line}
use esgraph.Daemon.Commands.Main.{replay, replay_result, replay_lines, replayed, dispatch}

module _
    {Database DbError IoError TomlError JsonError HandlerError Other FilePath Client NewError
      ClientError : Type 0}
    (world : World Database DbError IoError TomlError JsonError HandlerError Other)
    (fs : FileSystem FilePath) (api : ClientApi Client NewError ClientError)
    (io_text : IoError → Text) (toml_text : TomlError → Text) (seen : Seen) where
  succeeds :
      (config : Config) (answer : Outcome (ReplayError DbError IoError JsonError) IngestStats)
      → replay_result world fs api io_text toml_text seen answer ≡ ok tt
      → (stats : IngestStats) × (answer ≡ ok stats)
        × (replay_lines world fs api io_text toml_text seen config answer
            ≡ ingested_line stats ∷ graph_line config.store ∷ [])
  succeeds config (ok stats) h = (stats, refl, refl)
  succeeds config (err e) h = absurd (ground arith)
  succeeds config panic h = absurd (ground arith)

  -- A run of the replay command that succeeds has loaded all its fixtures, and prints a line that
  -- tells, as numbers before the words, how many events they hold and how many nodes and edges these
  -- have, and then the path of the graph.
  pub dispatch-replay :
      (config : Config) (path : Text) (paths : List Text) {ended : Ended Database (Failure world)}
      → dispatch world fs api io_text toml_text seen config (replay (path ∷ paths)) ≡ some ended
      → ended.result ≡ ok tt
      → (events : List NormalisedEvent) × (load_fixtures world.reader (path ∷ paths) ≡ ok events)
        × (line : Text) × (ended.lines ≡ line ∷ graph_line config.store ∷ [])
        × (read_counts line ≡ some (counts (totals events)))
  unfolding dispatch
  dispatch-replay config path paths {ended} h k =
      let left =
        cmd_replay world.driver world.display world.opener world.to_json world.reader config
          (path ∷ paths) in
      let is_ended : replayed world fs api io_text toml_text seen config left ≡ ended =
        ground arith in
      let (stats, answers, lines) = succeeds config left.answer (ap (λ e. e.result) is_ended ∙ k) in
      let (events, loads, counted) =
        cmd_replay-totals world.driver world.display world.opener world.to_json world.reader config
          (path ∷ paths) answers in
      (
        events,
        loads,
        ingested_line stats,
        ap (λ e. e.lines) (sym is_ended) ∙ lines,
        read_counts-ingested_line stats ∙ ap (λ x. some (counts x)) counted,
      )
