-- ===== src/Tests/Sample.antt =====
-- The sample event of ingest.rs: what is written of it, and what a store counts afterwards.
use mathlib.Core.Option
use esgraph.Prelude.{◌≡◌, ◌≢◌, none, some, Option, refl, arith, true, ok, List, [], ◌∷◌, All}
use esgraph.Prelude.Int.{ℤ, pos}
use esgraph.Prelude.Text.{Text, text}
use esgraph.Core.Model.{ProcessNode, wrote}
use esgraph.Store.Cypher.{Value}
use esgraph.Store.Statements.{
  ingest_event_clauses, edge_props, edge_kind_name, merge_node_stmt, merge_process_stmt,
  ensure_edge_endpoints, insert_edge_stmt,
}
use esgraph.Store.Statements.Columns.{SetsColumn, GivesColumn}
use esgraph.Store.Statements.Columns.Nodes.{event_label}
use esgraph.Store.Statements.Columns.Written.{SetsColumns, statements-SetsColumn}
use esgraph.Store.Statements.Columns.{string, int64}
use esgraph.Store.Statements.Rows.{clauses_of, created, matched, upserts}
use esgraph.Store.Statements.Kept.{upsert_text, column, last_given, upserts-column}
use esgraph.Store.Batch.{Driver, ingest_batch}
use esgraph.Store.Batch.Sample.{sample_write_event, sample_process, sample_edge}
use esgraph.Store.Graph.{Row, count_label}
use esgraph.Store.Graph.Counts.{count_label-HoldsCount}
use esgraph.Tests.Samples.{recorder, no_json, fresh_store, process_row}

sample_is_ingested :
    (ingest_batch {IoError = Unit {0}} recorder no_json (sample_write_event ∷ []) fresh_store).0
    ≡ ok (record { events = 1; node_upserts = 2; edges_inserted = 1 })
unfolding ingest_batch merge_node_stmt ensure_edge_endpoints insert_edge_stmt
sample_is_ingested = refl

statements-SetsColumn_example :
    All (SetsColumn event_label) (ingest_event_clauses no_json sample_write_event)
    × SetsColumns sample_process sample_write_event.timestamp_unix_ns true
    × All
        (GivesColumn (edge_kind_name wrote))
        (edge_props sample_edge sample_write_event.event_name 7)
statements-SetsColumn_example =
    statements-SetsColumn no_json sample_write_event sample_process true sample_edge 7

-- A database whose every answer is one node.
abbrev one_node : Driver (List Text) (Unit {0}) (Row (Unit {0}))
one_node = record {
  connect = λ db. ok tt;
  query = λ script db. (ok ((Value.int64 (pos 1) ∷ []) ∷ []), db);
}

count_label-HoldsCount_example :
    (count_label {IoError = Unit {0}} one_node (λ v. []) (text "Process") []).0 ≡ ok 1
count_label-HoldsCount_example =
    count_label-HoldsCount one_node (λ v. []) (text "Process") [] {v = Value.int64 (pos 1)}
      {cells = []} {rows = []} refl refl (omega arith) refl

-- An exec with arguments, then an exit, of one process.
abbrev runs : List (ProcessNode × ℤ)
runs =
    (record (process_row (text "a1")) { args_json = some (text "[\"sh\"]") }, pos 1)
    ∷ (record (process_row (text "a1")) { args_json = none; exit_status = some (pos 3) }, pos 2)
    ∷ []

upserts-column_example :
    (merge_process_stmt {DbError = Unit {0}} {IoError = Unit {0}} (process_row (text "a1")) (pos 1)
      ≡ ok (
          upsert_text
            (text "a1")
            (clauses_of (created (process_row (text "a1")) (pos 1)))
            (clauses_of (matched (process_row (text "a1")) (pos 1)))))
    × (column (text "args_json") (upserts runs none)
        ≡ last_given (λ q. Option.map string q.0.args_json) runs)
    × (column (text "exit_status") (upserts runs none)
        ≡ last_given (λ q. Option.map int64 q.0.exit_status) runs)
upserts-column_example =
    upserts-column {DbError = Unit {0}} {IoError = Unit {0}} (process_row (text "a1")) (pos 1) runs
      (λ e. cc)

row_keeps_args : column (text "args_json") (upserts runs none) ≡ some (string (text "[\"sh\"]"))
unfolding upserts esgraph.Prelude.Text.text_eq
row_keeps_args = refl
