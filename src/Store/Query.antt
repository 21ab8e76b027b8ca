-- ===== src/Store/Query.antt =====
-- crates/esgraph-store/src/query.rs: the result of a query as text. The names of the columns of a
-- result, which `lbug` gives with it, are a parameter.
use esgraph.Prelude.{List, map, Outcome, ok, ◌>>=◌}
use esgraph.Prelude.Text.{Text}
use esgraph.Store.Cypher.{Value, value_to_string}
use esgraph.Store.Statements.{StoreError}
use esgraph.Store.Batch.{Driver}
use esgraph.Store.Graph.{Row, ask}

pub record QueryResult : Type 0 where
  pub columns : List Text
  pub rows : List (List Text)

module _ {Database DbError IoError Other : Type 0} (driver : Driver Database DbError (Row Other))
    (display : Value Other → Text) (column_names : Text → Database → List Text) where
  unfoldable pub query_tabular :
      Text → Database → Outcome (StoreError DbError IoError) QueryResult × Database
  unfolding ask value_to_string
  query_tabular cypher db =
      let (answer, db') = ask driver display cypher db in
      (
        answer >>= λ rows. ok (record {
          columns = column_names cypher db;
          rows = map (map (value_to_string display)) rows;
        }),
        db',
      )
