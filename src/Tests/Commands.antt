-- ===== src/Tests/Commands.antt =====
-- The commands over a database that answers every query with one row.
use esgraph.Prelude.{
  ◌≡◌, ◌↔◌, refl, arith, inl, map, Option, none, some, List, [], ◌∷◌, ◌++◌, true, ok,
}
use esgraph.Prelude.Split.{split}
use esgraph.Prelude.Text.{Text, text}
use esgraph.Core.Config.{Config, default_config}
use esgraph.Core.Config.Validate.{IsValid}
use esgraph.Store.Cypher.{Value, string}
use esgraph.Store.Batch.{Driver, StoreState}
use esgraph.Store.Graph.{Row, from_config}
use esgraph.Store.Query.{QueryResult, query_tabular}
use esgraph.Esf.Collector.Session.{run_collector}
use esgraph.Daemon.Writer.{received, disconnected}
use esgraph.Daemon.Commands.{World, Ended, Failure, graph_line, rows_line, cmd_query, cmd_status}
use esgraph.Daemon.Commands.Live.{Seen, cmd_run}
use esgraph.Daemon.Commands.Main.{Cli, replay, status, dispatch, main, main-IsValid}
use esgraph.Daemon.Commands.Reads.{counts, read_counts}
use esgraph.Daemon.Commands.Replays.{dispatch-replay}
use esgraph.Daemon.Replay.{load_fixtures, load_fixture}
use esgraph.Core.Model.{NormalisedEvent}
use esgraph.Store.Batch.Counts.{totals}
use esgraph.Daemon.Commands.Exit.{IsCounted, cmd_run_iff, cmd_run-IsCounted}
use esgraph.Daemon.Commands.Table.{cmd_query-split}
use esgraph.Tests.Collector.{disk, api}
use esgraph.Tests.Daemon.{files}
use esgraph.Tests.Samples.{memory, no_json, fork_event}

-- Every query gives the text `3`.
abbrev threes : Driver (List Text) (Unit {0}) (Row (Unit {0}))
threes = record {
  connect = λ db. ok tt;
  query = λ script db. (ok ((string (text "3") ∷ []) ∷ []), db);
}

abbrev world : World (List Text) (Unit {0}) (Unit {0}) (Unit {0}) (Unit {0}) (Unit {0}) (Unit {0})
world = record {
  driver = threes;
  display = λ v. [];
  column_names = λ cypher db. text "n" ∷ [];
  opener = memory;
  reader = files;
  to_json = no_json;
  toml = λ s. ok default_config;
  set_handler = ok tt;
}

abbrev opened : StoreState (List Text)
opened = record { db = []; next_ingest_id = 4 }

store_opens :
    from_config {IoError = Unit {0}} threes (λ v. []) memory default_config.store ≡ ok opened
unfolding from_config esgraph.Store.Schema.init_schema esgraph.Store.Cypher.parse_count_value
store_opens = refl

abbrev threes_table : QueryResult
threes_table = record { columns = text "n" ∷ []; rows = (text "3" ∷ []) ∷ [] }

query_answers :
    (query_tabular {IoError = Unit {0}} threes
      (λ v. [])
      (λ c db. text "n" ∷ [])
      (text "RETURN 3")
      []).0
    ≡ ok threes_table
unfolding query_tabular
query_answers = refl

cmd_query-split_example :
    ((cmd_query world default_config (text "RETURN 3")).result ≡ ok tt)
    × (table : List Text) × ((cmd_query world default_config (text "RETURN 3")).lines
        ≡ table ++ rows_line 1 ∷ [])
    × (map (split 9) table ≡ (text "n" ∷ []) ∷ (text "3" ∷ []) ∷ [])
cmd_query-split_example =
    cmd_query-split world default_config (text "RETURN 3") store_opens query_answers (
      ((λ e. cc), (((λ e. omega arith), tt), tt)),
      (((λ e. cc), (((λ e. omega arith), tt), tt)), tt),
    )

status_succeeds : (cmd_status world default_config).result ≡ ok tt
unfolding cmd_status esgraph.Store.Schema.init_schema default_config esgraph.Core.Events.from_str
    esgraph.Core.Events.name_eq
status_succeeds = refl

-- The collector finds the flag set at its first poll; the writer takes an event and finds the
-- collector gone.
abbrev seen : Seen
seen = record {
  printed = none;
  polls = true ∷ [];
  observed = received (fork_event (text "a")) 10 ∷ disconnected ∷ [];
  now = 0;
}

abbrev run_world : Option (Ended (List Text) (Failure world))
run_world = cmd_run world disk api (λ e. []) (λ e. []) default_config seen

-- What that run leaves.
abbrev ended : Ended (List Text) (Failure world)
ended = record {
  result = ok tt;
  lines =
      text "ingested 1 event(s), 1 node upsert(s), 1 edge(s)" ∷ text "graph: data/events.lbug" ∷ [];
  db = some [];
}

run_ends_well : run_world ≡ some ended
unfolding cmd_run default_config esgraph.Core.Events.from_str
    esgraph.Esf.Collector.Mutes.muted_paths esgraph.Esf.Collector.Session.wait
    esgraph.Store.Schema.init_schema esgraph.Store.Batch.ingest_batch
    esgraph.Store.Statements.merge_node_stmt esgraph.Store.Statements.ensure_edge_endpoints
    esgraph.Store.Statements.insert_edge_stmt esgraph.Store.Batch.Counts.add_stats
run_ends_well = refl

cmd_run_iff_example : (ended.result ≡ ok tt) ↔ (
    (run_collector disk api
      (λ (e : Unit {0}). [])
      (λ (e : Unit {0}). [])
      none
      default_config
      (true ∷ [])).result
    ≡ some (ok tt))
cmd_run_iff_example =
    cmd_run_iff world disk api (λ e. []) (λ e. []) default_config seen {ended = ended} refl
      run_ends_well

cmd_run-IsCounted_example :
    IsCounted world disk api (λ e. []) (λ e. []) default_config seen ended.lines
cmd_run-IsCounted_example =
    cmd_run-IsCounted world disk api (λ e. []) (λ e. []) default_config seen {ended = ended}
      run_ends_well (λ e. cc)

abbrev status_line : Cli
status_line = record { config = text "config/default.toml"; command = status }

abbrev status_ended : Ended (List Text) (Failure world)
status_ended = cmd_status world default_config

main_ends : main world disk api (λ e. []) (λ e. []) seen status_line ≡ some status_ended
unfolding main default_config esgraph.Core.Events.from_str
main_ends = refl

main-IsValid_example :
    (contents : Text) × (config : Config) × (files.read_to_string (text "config/default.toml")
      ≡ ok contents)
    × (world.toml contents ≡ ok config)
    × IsValid config
    × (dispatch world disk api (λ e. []) (λ e. []) seen config status ≡ some status_ended)
main-IsValid_example =
    main-IsValid world disk api (λ e. []) (λ e. []) seen status_line main_ends (inl status_succeeds)

abbrev replay_ended : Ended (List Text) (Failure world)
replay_ended = record {
  result = ok tt;
  lines =
      text "ingested 1 event(s), 1 node upsert(s), 1 edge(s)" ∷ text "graph: data/events.lbug" ∷ [];
  db = some [];
}

replay_ends :
    dispatch world disk api (λ e. []) (λ e. []) seen default_config (replay (text "a" ∷ []))
    ≡ some replay_ended
unfolding dispatch load_fixtures load_fixture from_config esgraph.Store.Schema.init_schema
    esgraph.Store.Batch.ingest_batch esgraph.Store.Statements.merge_node_stmt
    esgraph.Store.Statements.ensure_edge_endpoints esgraph.Store.Statements.insert_edge_stmt
    default_config
replay_ends = refl

dispatch-replay_example :
    (events : List NormalisedEvent) × (load_fixtures files (text "a" ∷ []) ≡ ok events)
    × (line : Text) × (replay_ended.lines ≡ line ∷ graph_line default_config.store ∷ [])
    × (read_counts line ≡ some (counts (totals events)))
dispatch-replay_example =
    dispatch-replay world disk api (λ e. []) (λ e. []) seen default_config (text "a") []
      {ended = replay_ended} replay_ends refl
