-- ===== src/Daemon/Commands.antt =====
-- crates/esgraphd/src/main.rs: `cmd_query` and `cmd_status`, with the errors of the commands and what
-- a command leaves. An error that `anyhow` keeps as text is kept as the error here.
pub mod Live
pub mod Reads
pub mod Main
pub mod Replays
pub mod Exit
pub mod Table
pub mod Report
use esgraph.Prelude.{
  List, [], ◌∷◌, ◌++◌, map, length, Option, none, some, Outcome, ok, err, panic, map_err, is_empty,
  if◌then◌else◌, ℕ,
}
use esgraph.Prelude.Int.{show_nat}
use esgraph.Prelude.Text.{Text, text, join}
use esgraph.Core.Config.{Config, StoreConfig, resolved_event_names}
use esgraph.Core.Errors.{ConfigError}
use esgraph.Core.Model.{EventDetails}
use esgraph.Core.Events.{EsEventName, to_string}
use esgraph.Store.Cypher.{Value}
use esgraph.Store.Statements.{StoreError}
use esgraph.Store.Batch.{Driver, StoreState}
use esgraph.Store.Graph.{Row, Opener, from_config, count_label, count_relationship}
use esgraph.Store.Query.{QueryResult, query_tabular}
use esgraph.Esf.Errors.{EsfError}
use esgraph.Daemon.Console.{Terminal, Console, ◌>>=◌, print, print_all, lift}
use esgraph.Daemon.Replay.{Reader, ReplayError}

-- What `main` fails with: `bail!` or an error of a component, with or without a context.
pub data CommandError (DbError IoError TomlError JsonError HandlerError : Type 0) : Type 0 where
  load_config :
      Text
      → ConfigError IoError TomlError
      → CommandError DbError IoError TomlError JsonError HandlerError
  no_fixtures : CommandError DbError IoError TomlError JsonError HandlerError
  replay_error :
      ReplayError DbError IoError JsonError
      → CommandError DbError IoError TomlError JsonError HandlerError
  store_error :
      StoreError DbError IoError → CommandError DbError IoError TomlError JsonError HandlerError
  config_error :
      ConfigError IoError TomlError → CommandError DbError IoError TomlError JsonError HandlerError
  install_handler : HandlerError → CommandError DbError IoError TomlError JsonError HandlerError
  requires_macos : CommandError DbError IoError TomlError JsonError HandlerError
  collector_error : EsfError → CommandError DbError IoError TomlError JsonError HandlerError

-- What a command leaves: its result, what it printed, and the database of its store, if it opened one.
pub record Ended (Database E : Type 0) : Type 0 where
  pub result : Outcome E (Unit {0})
  pub lines : List Text
  pub db : Option Database

abbrev pub node_labels : List Text
node_labels = text "IngestEvent" ∷ text "Process" ∷ text "File" ∷ text "Socket" ∷ []

abbrev pub shown_relationships : List Text
shown_relationships =
    text "EXECUTED"
    ∷ text "FORKED"
    ∷ text "EXITED"
    ∷ text "WROTE"
    ∷ text "CREATED"
    ∷ text "UNLINKED"
    ∷ text "RENAMED"
    ∷ text "UIPC_BOUND"
    ∷ text "UIPC_CONNECTED"
    ∷ []

abbrev pub count_line : Text → ℕ → Text
count_line label count = label ++ (text ": " ++ show_nat count)

abbrev pub graph_line : StoreConfig → Text
graph_line config = text "graph: " ++ config.path

abbrev pub rows_line : ℕ → Text
rows_line n = text "(" ++ (show_nat n ++ text " rows)")

-- The header and the rows that `cmd_query` prints.
abbrev pub table_lines : QueryResult → List Text
table_lines result =
    if is_empty result.columns
    then text "(no columns)" ∷ []
    else join (9 ∷ []) result.columns ∷ map (join (9 ∷ [])) result.rows

abbrev pub name_line : EsEventName → Text
name_line name = text "  - " ++ to_string name

-- What the commands call of the crates around them: the database, the file system, the readers of
-- JSON and TOML, and `ctrlc::set_handler`.
pub record World (Database DbError IoError TomlError JsonError HandlerError Other : Type 0)
    : Type 0 where
  pub driver : Driver Database DbError (Row Other)
  pub display : Value Other → Text
  pub column_names : Text → Database → List Text
  pub opener : Opener Database DbError IoError
  pub reader : Reader IoError JsonError
  pub to_json : EventDetails → Option Text
  pub toml : Text → Outcome TomlError Config
  pub set_handler : Outcome HandlerError (Unit {0})

module _ {Database DbError IoError TomlError JsonError HandlerError Other : Type 0}
    (world : World Database DbError IoError TomlError JsonError HandlerError Other) where
  abbrev pub Failure : Type 0
  Failure = CommandError DbError IoError TomlError JsonError HandlerError

  -- A call of the store, with its error mapped.
  abbrev pub asking :
      {A : Type 0}
      → (Database → Outcome (StoreError DbError IoError) A × Database)
      → Console Database Failure A
  asking query t = (map_err store_error (query t.db).0, record t { db = (query t.db).1 })

  -- `cmd_query`, from the open store on.
  unfoldable pub print_query : Text → Console Database Failure (Unit {0})
  unfolding query_tabular print_all
  print_query cypher = do
    result ← asking (query_tabular world.driver world.display world.column_names cypher)
    table ← print_all (table_lines result)
    print (rows_line (length result.rows))

  -- A loop of `cmd_status` over labels or relationship types.
  unfoldable pub print_counts :
      (Text → Database → Outcome (StoreError DbError IoError) ℕ × Database)
      → List Text
      → Console Database Failure (Unit {0})
  print_counts count [] = lift (ok tt)
  print_counts count (label ∷ rest) = do
    n ← asking (count label)
    shown ← print (count_line label n)
    print_counts count rest

  -- `cmd_status`, from the open store on.
  unfoldable pub print_status : Config → Console Database Failure (Unit {0})
  unfolding print_counts print_all count_label count_relationship resolved_event_names
  print_status config = do
    path ← print_all (graph_line config.store ∷ [] ∷ [])
    nodes ← print_counts (count_label world.driver world.display) node_labels
    blank ← print []
    edges ← print_counts (count_relationship world.driver world.display) shown_relationships
    events ← lift (
        map_err config_error
          (resolved_event_names {IoError = IoError} {TomlError = TomlError} config))
    print_all ([] ∷ text "configured ESF subscriptions:" ∷ map name_line events)

  -- `open_store(config, options)?` and the rest of a command.
  abbrev pub with_store :
      Outcome (StoreError DbError IoError) (StoreState Database)
      → Console Database Failure (Unit {0})
      → Ended Database Failure
  with_store (ok opened) body =
      let (result, after) = body (record { lines = []; db = opened.db }) in
      record { result = result; lines = after.lines; db = some after.db }
  with_store (err e) body = record { result = err (store_error e); lines = []; db = none }
  with_store panic body = record { result = panic; lines = []; db = none }

  unfoldable pub cmd_query : Config → Text → Ended Database Failure
  unfolding print_query from_config
  cmd_query config cypher =
      with_store (from_config world.driver world.display world.opener config.store)
        (print_query cypher)

  unfoldable pub cmd_status : Config → Ended Database Failure
  unfolding print_status from_config
  cmd_status config =
      with_store (from_config world.driver world.display world.opener config.store)
        (print_status config)
