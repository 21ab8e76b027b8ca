-- ===== src/Tests/Store.antt =====
-- Literals, scripts, batches and the schema at concrete inputs.
use esgraph.Prelude.{
  inr, ap, some, ◌<◌, ◌+◌, ◌%◌, ◌^◌, ◌≡◌, ◌≢◌, refl, List, [], ◌∷◌, ◌++◌, length, All, Outcome, ok,
  err, panic, arith,
}
use esgraph.Prelude.Text.{Text, text, join}
use esgraph.Core.Model.{NormalisedEvent}
use esgraph.Store.Cypher.{parse_count_value, cypher_str}
use esgraph.Store.Cypher.Script.{separator, statements_of}
use esgraph.Store.Cypher.Literal.{read_literal, read_literal-cypher_str}
use esgraph.Store.Statements.{
  StoreError, invalid_event, merge_node_stmt, node_label, labels, ensure_edge_endpoints,
  insert_edge_stmt,
}
use esgraph.Store.Batch.{IngestStats, Driver, StoreState, ingest_batch}
use esgraph.Store.Batch.Counts.{totals, script_length}
use esgraph.Store.Batch.Commits.{IsCommitted, ingest_batch-totals}
use esgraph.Store.Batch.Scripts.{ingest_batch-script}
use esgraph.Store.Batch.Writable.{IsIngestible}
use esgraph.Store.Batch.Effects.{Graph, has}
use esgraph.Store.Batch.Repeats.{Repeats, ingest_batch-Repeats}
use esgraph.Store.Batch.Linked.{Builds, ingest_batch-Builds}
use esgraph.Store.Batch.Validation.{ingest_batch-IsIngestible, ingest_batch_atomic}
use esgraph.Store.Schema.{init_schema}
use esgraph.Store.Graph.{
  Row, open_store, run_ddl, ask, load_next_ingest_id, next_id, make_parent, open_database,
  first_count, create_tables,
}
use esgraph.Store.Graph.Fresh.{id_row, TellsLast, open_store_fresh}
use esgraph.Tests.Samples.{memory, recorder, no_json, fresh_store, fork_event}

abbrev Result : Type 0
Result = Outcome (StoreError (Unit {0}) (Unit {0})) IngestStats × StoreState (List Text)

abbrev ingest : List NormalisedEvent → StoreState (List Text) → Result
ingest events s = ingest_batch recorder no_json events s

abbrev forks : List NormalisedEvent
forks = fork_event (text "a1") ∷ fork_event (text "a3") ∷ []

abbrev forks_stats : IngestStats
forks_stats = record { events = 2; node_upserts = 2; edges_inserted = 2 }

forks_ok : (ingest forks fresh_store).0 ≡ ok forks_stats
unfolding ingest_batch merge_node_stmt node_label labels ensure_edge_endpoints insert_edge_stmt
forks_ok = refl

-- A process without an audit token is refused.
forks_refused :
    (ingest (fork_event [] ∷ []) fresh_store).0
    ≡ err (invalid_event (text "process node missing audit_token_hex"))
unfolding ingest_batch merge_node_stmt
forks_refused = refl

read_literal-cypher_str_example :
    read_literal (cypher_str (text "a\"\\") ++ text "; DROP") ≡ some (text "a\"\\", text "; DROP")
read_literal-cypher_str_example = read_literal-cypher_str (text "a\"\\") (text "; DROP")

ingest_batch-script_example :
    (c : IsCommitted
      (Unit {0})
      recorder
      no_json
      forks
      fresh_store
      (ingest forks fresh_store).1
      forks_stats)
    × (statements_of (join separator c.built.statements) ≡ c.built.statements)
    × (length c.built.statements ≡ script_length forks_stats)
ingest_batch-script_example =
    ingest_batch-script (Unit {0}) recorder no_json (fork_event (text "a1"))
      (fork_event (text "a3") ∷ []) fresh_store forks_ok

-- A graph in which the first of the processes is there already.
abbrev one_process : Graph
one_process = record { nodes = (text "process", text "a1") ∷ []; edges = [] }

ingest_batch-Builds_example :
    Builds
      (Unit {0})
      recorder
      no_json
      forks
      fresh_store
      (ingest forks fresh_store).1
      forks_stats
      one_process
ingest_batch-Builds_example =
    ingest_batch-Builds (Unit {0}) recorder no_json (fork_event (text "a1"))
      (fork_event (text "a3") ∷ []) fresh_store one_process (unfold has in (refl, tt)) forks_ok

forks_are_ingested : ingest forks fresh_store ≡ (ok forks_stats, (ingest forks fresh_store).1)
forks_are_ingested = ap (λ o. (o, (ingest forks fresh_store).1)) forks_ok

abbrev once_more : StoreState (List Text)
once_more = (ingest forks fresh_store).1

forks_again : ingest forks once_more ≡ (ok forks_stats, (ingest forks once_more).1)
unfolding ingest_batch merge_node_stmt ensure_edge_endpoints insert_edge_stmt
forks_again = refl

ingest_batch-Repeats_example :
    Repeats
      (Unit {0})
      recorder
      no_json
      forks
      fresh_store
      once_more
      (ingest forks once_more).1
      forks_stats
      forks_stats
      one_process
ingest_batch-Repeats_example =
    ingest_batch-Repeats (Unit {0}) recorder no_json (fork_event (text "a1"))
      (fork_event (text "a3") ∷ []) fresh_store once_more (ingest forks once_more).1 one_process
      (unfold has in (refl, tt)) forks_are_ingested forks_again

ingest_batch-totals_example :
    (forks_stats ≡ totals forks)
    × ((ingest forks fresh_store).1.next_ingest_id
        ≡ (fresh_store.next_ingest_id + length forks) % 2 ^ 64)
ingest_batch-totals_example =
    ingest_batch-totals (Unit {0}) recorder no_json forks fresh_store (omega arith) forks_ok

ingest_batch-IsIngestible_example : All IsIngestible forks
ingest_batch-IsIngestible_example =
    ingest_batch-IsIngestible (Unit {0}) recorder no_json forks fresh_store forks_ok

ingest_batch_atomic_example : (ingest (fork_event [] ∷ []) fresh_store).1.db ≡ fresh_store.db
ingest_batch_atomic_example =
    ingest_batch_atomic (Unit {0}) recorder no_json (fork_event [] ∷ []) fresh_store forks_refused

-- A driver that refuses every query.
abbrev refuser : Driver (List Text) (Unit {0}) (Row (Unit {0}))
refuser = record { connect = λ db. ok tt; query = λ script db. (err tt, db) }

err_ne_panic : ◌≢◌ {A = Outcome (Unit {0}) (List (Row (Unit {0})))} (err tt) panic
err_ne_panic h = cc

-- A driver whose database has 40 and 41 as its ids.
abbrev answering : Driver (List Text) (Unit {0}) (Row (Unit {0}))
answering = record { connect = λ db. ok tt; query = λ script db. (ok (id_row 41), db) }

abbrev opened : StoreState (List Text)
opened = record { db = []; next_ingest_id = 42 }

open_is_ok : open_store answering (λ v. []) memory (text "db") ≡ ok opened
unfolding open_store make_parent open_database create_tables run_ddl load_next_ingest_id ask
    first_count next_id parse_count_value init_schema
open_is_ok = refl

rows_are :
    {rows : List (Row (Unit {0}))}
    → ◌≡◌ {A = Outcome (Unit {0}) (List (Row (Unit {0})))} (ok (id_row 41)) (ok rows)
    → rows ≡ id_row 41
rows_are h = cc

answering-TellsLast : TellsLast answering (λ db. 40 ∷ 41 ∷ [])
answering-TellsLast = record {
  last = λ db h. inr (41, rows_are h, omega arith, (omega arith, (omega arith, tt)));
}

open_store_fresh_example : All (λ id. id < opened.next_ingest_id) (40 ∷ 41 ∷ [])
open_store_fresh_example =
    open_store_fresh answering (λ v. []) (λ db. 40 ∷ 41 ∷ []) memory (text "db") []
      answering-TellsLast refl open_is_ok
