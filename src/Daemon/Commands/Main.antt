-- ===== src/Daemon/Commands/Main.antt =====
-- `main` of main.rs, from the parsed arguments on.
use esgraph.Prelude.{
  ◌≡◌, ◌≢◌, ◌⊎◌, inl, inr, refl, arith, Outcome-cases, List, [], ◌∷◌, Option, none, some, Outcome,
  ok, err, panic,
}
use esgraph.Prelude.Text.{Text}
use esgraph.Core.Config.{Config, from_file}
use esgraph.Core.Config.Validate.{IsValid, from_str-IsValid}
use esgraph.Core.Errors.{ConfigError}
use esgraph.Store.Batch.{IngestStats}
use esgraph.Esf.Collector.Mutes.{FileSystem}
use esgraph.Esf.Collector.Session.{ClientApi}
use esgraph.Daemon.Replay.{ReplayError, Replayed, cmd_replay}
use esgraph.Daemon.Commands.{
  World, load_config, no_fixtures, replay_error, Ended, Failure, graph_line, cmd_query, cmd_status,
}
use esgraph.Daemon.Commands.Live.{Seen, ingested_line, cmd_run}

pub data Commands : Type 0 where
  replay : List Text → Commands
  query : Text → Commands
  status : Commands
  run : Commands

pub record Cli : Type 0 where
  pub config : Text
  pub command : Commands

module _
    {Database DbError IoError TomlError JsonError HandlerError Other FilePath Client NewError
      ClientError : Type 0}
    (world : World Database DbError IoError TomlError JsonError HandlerError Other)
    (fs : FileSystem FilePath) (api : ClientApi Client NewError ClientError)
    (io_text : IoError → Text) (toml_text : TomlError → Text) (seen : Seen) where
  abbrev pub fail : Failure world → Ended Database (Failure world)
  fail e = record { result = err e; lines = []; db = none }

  -- The result of a replay and what it prints.
  abbrev pub replay_result :
      Outcome (ReplayError DbError IoError JsonError) IngestStats
      → Outcome (Failure world) (Unit {0})
  replay_result (ok stats) = ok tt
  replay_result (err e) = err (replay_error e)
  replay_result panic = panic

  abbrev pub replay_lines :
      Config → Outcome (ReplayError DbError IoError JsonError) IngestStats → List Text
  replay_lines config (ok stats) = ingested_line stats ∷ graph_line config.store ∷ []
  replay_lines config (err e) = []
  replay_lines config panic = []

  abbrev pub replayed :
      Config → Replayed Database DbError IoError JsonError → Ended Database (Failure world)
  replayed config left = record {
    result = replay_result left.answer;
    lines = replay_lines config left.answer;
    db = left.db;
  }

  -- The match on the command.
  unfoldable pub dispatch : Config → Commands → Option (Ended Database (Failure world))
  unfolding cmd_replay cmd_query cmd_status cmd_run
  dispatch config (replay []) = some (fail no_fixtures)
  dispatch config (replay (fixture ∷ rest)) = some (
      replayed config (
        cmd_replay world.driver world.display world.opener world.to_json world.reader config
          (fixture ∷ rest)))
  dispatch config (query cypher) = some (cmd_query world config cypher)
  dispatch config status = some (cmd_status world config)
  dispatch config run = cmd_run world fs api io_text toml_text config seen

  -- From the answer of `Config::from_file` on.
  abbrev pub configured :
      Cli → Outcome (ConfigError IoError TomlError) Config → Option (Ended Database (Failure world))
  unfolding dispatch
  configured cli (ok config) = dispatch config cli.command
  configured cli (err e) = some (fail (load_config cli.config e))
  configured cli panic = some (record { result = panic; lines = []; db = none })

  unfoldable pub main : Cli → Option (Ended Database (Failure world))
  unfolding dispatch from_file
  main cli = configured cli (from_file world.reader.read_to_string world.toml cli.config)

  configured-ok :
      (cli : Cli) (answer : Outcome (ConfigError IoError TomlError) Config)
      {ended : Ended Database (Failure world)}
      → configured cli answer ≡ some ended
      → (ended.result ≡ ok tt) ⊎ (ended.db ≢ none)
      → (config : Config) × (answer ≡ ok config) × (dispatch config cli.command ≡ some ended)
  unfolding dispatch
  configured-ok cli (ok config) h goes = (config, refl, h)
  configured-ok cli (err e) {ended} h goes = absurd (ground arith)
  configured-ok cli panic {ended} h goes = absurd (ground arith)

  from_file-IsValid :
      (path : Text) {config : Config}
      → from_file {TomlError = TomlError} world.reader.read_to_string world.toml path ≡ ok config
      → (contents : Text) × (world.reader.read_to_string path ≡ ok contents)
        × (world.toml contents ≡ ok config)
        × IsValid config
  unfolding from_file
  from_file-IsValid path {config} h = elim (Outcome-cases (world.reader.read_to_string path)) [
    | inl (contents, e) ↦
        let (parses, valid) =
          from_str-IsValid {IoError = IoError} world.toml contents (ground (arith, e)) in
        (contents, e, parses, valid)
    | inr (inl (e, h')) ↦ absurd (ground (arith, h'))
    | inr (inr h') ↦ absurd (ground (arith, h'))
  ]

  -- A run of the program that succeeds or has opened a store has read its configuration from the file
  -- of the arguments, the configuration is valid, and the run is that of the command under it.
  pub main-IsValid :
      (cli : Cli) {ended : Ended Database (Failure world)}
      → main cli ≡ some ended
      → (ended.result ≡ ok tt) ⊎ (ended.db ≢ none)
      → (contents : Text) × (config : Config) × (world.reader.read_to_string cli.config
          ≡ ok contents)
        × (world.toml contents ≡ ok config)
        × IsValid config
        × (dispatch config cli.command ≡ some ended)
  unfolding main
  main-IsValid cli h goes =
      let (config, loaded, runs) =
        configured-ok cli (from_file world.reader.read_to_string world.toml cli.config) h goes in
      let (contents, reads, parses, valid) = from_file-IsValid cli.config loaded in
      (contents, config, reads, parses, valid, runs)
