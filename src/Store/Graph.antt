-- ===== src/Store/Graph.antt =====
-- crates/esgraph-store/src/store.rs, with `load_next_ingest_id` of ingest.rs and query.rs: the
-- lifecycle of a `GraphStore`, its counts and its tabular queries.
pub mod Fresh
pub mod Counts
use esgraph.Prelude.{
  ℕ, ◌+◌, ◌-◌, ◌^◌, ◌≡◌, ◌≢◌, refl, Option, none, some, List, [], ◌∷◌, ◌++◌, Outcome, ok, err,
  panic, ◌>>=◌, arith, is_empty, if◌then◌else◌,
}
use Prim.Native.Nat.{min}
use esgraph.Prelude.Text.{Text, text}
use esgraph.Core.Config.{StoreConfig}
use esgraph.Store.Cypher.{Value, parse_count_value}
use esgraph.Store.Statements.{StoreError, ladybug, io}
use esgraph.Store.Batch.{Driver, StoreState}
use esgraph.Store.Schema.{init_schema}

-- A row of a result.
abbrev pub Row : Type 0 → Type 0
Row Other = List (Value Other)

-- `row.first().and_then(parse_count_value)` on the first row, if there is one.
unfoldable pub first_count : {Other : Type 0} → (Value Other → Text) → List (Row Other) → Option ℕ
first_count display [] = none
first_count display ([] ∷ rows) = none
first_count display ((v ∷ cells) ∷ rows) = parse_count_value display v

abbrev pub max_id_query : Text
max_id_query = text "MATCH (e:IngestEvent) RETURN e.id AS id ORDER BY e.id DESC LIMIT 1"

-- What the program calls of the file system and of `lbug` to open a database file: the parent of a
-- path (`none` or empty where there is none), `create_dir_all`, and `Database::new`.
pub record Opener (Database DbError IoError : Type 0) : Type 0 where
  pub parent : Text → Option Text
  pub create_dir_all : Text → Outcome IoError (Unit {0})
  pub new_database : Text → Outcome DbError Database

-- `id.saturating_add(1)`, and 1 where no id is found.
unfoldable pub next_id : Option ℕ → ℕ
next_id none = 1
next_id (some id) = min (id + 1) (2 ^ 64 - 1)

abbrev count_or_zero : Option ℕ → ℕ
count_or_zero none = 0
count_or_zero (some n) = n

module _ {Database DbError IoError Other : Type 0} (driver : Driver Database DbError (Row Other))
    (display : Value Other → Text) where
  -- `Connection::new(db)?` and then a query, whose error is wrapped by `?`.
  unfoldable pub ask :
      Text → Database → Outcome (StoreError DbError IoError) (List (Row Other)) × Database
  ask cypher db = elim (driver.connect db) [
    | err e ↦ (err (ladybug e), db)
    | panic ↦ (panic, db)
    | ok conn ↦
        let (answer, db') = driver.query cypher db in
        (elim answer [ ok rows ↦ ok rows | err e ↦ err (ladybug e) | panic ↦ panic ], db')
  ]

  -- The loop of `init_schema`: an error is logged and skipped.
  unfoldable pub run_ddl :
      List Text → Database → Outcome (StoreError DbError IoError) (Unit {0}) × Database
  run_ddl [] db = (ok tt, db)
  run_ddl (ddl ∷ rest) db =
      let (answer, db') = driver.query ddl db in
      elim answer [ ok rows ↦ run_ddl rest db' | err e ↦ run_ddl rest db' | panic ↦ (panic, db') ]

  -- `init_schema`
  unfoldable pub create_tables :
      Database → Outcome (StoreError DbError IoError) (Unit {0}) × Database
  unfolding run_ddl
  create_tables db = elim (driver.connect db) [
    | err e ↦ (err (ladybug e), db)
    | panic ↦ (panic, db)
    | ok conn ↦ run_ddl init_schema db
  ]

  unfoldable pub load_next_ingest_id : Database → Outcome (StoreError DbError IoError) ℕ × Database
  unfolding ask first_count next_id
  load_next_ingest_id db =
      let (answer, db') = ask max_id_query db in
      (answer >>= λ rows. ok (next_id (first_count display rows)), db')

  -- What `?` does with an error of `create_dir_all`.
  unfoldable pub make_parent :
      Opener Database DbError IoError → Text → Outcome (StoreError DbError IoError) (Unit {0})
  make_parent opener path = elim (opener.parent path) [
    | none ↦ ok tt
    | some parent ↦ if is_empty parent then ok tt else elim (opener.create_dir_all parent) [
      | ok u ↦ ok tt
      | err e ↦ err (io e)
      | panic ↦ panic
    ]
  ]

  unfoldable pub open_database :
      Opener Database DbError IoError → Text → Outcome (StoreError DbError IoError) Database
  open_database opener path = elim (opener.new_database path) [
    | ok db ↦ ok db
    | err e ↦ err (ladybug e)
    | panic ↦ panic
  ]

  -- `GraphStore::open`
  unfoldable pub open_store :
      Opener Database DbError IoError
      → Text
      → Outcome (StoreError DbError IoError) (StoreState Database)
  unfolding make_parent open_database create_tables load_next_ingest_id
  open_store opener path = do
    made ← make_parent opener path
    db ← open_database opener path
    tables ← (create_tables db).0
    next ← (load_next_ingest_id (create_tables db).1).0
    ok (record { db = (load_next_ingest_id (create_tables db).1).1; next_ingest_id = next })

  -- `GraphStore::from_config`
  unfoldable pub from_config :
      Opener Database DbError IoError
      → StoreConfig
      → Outcome (StoreError DbError IoError) (StoreState Database)
  unfolding open_store
  from_config opener config = open_store opener config.path

  unfoldable pub count_label : Text → Database → Outcome (StoreError DbError IoError) ℕ × Database
  unfolding ask first_count
  count_label label db =
      let (answer, db') = ask (text "MATCH (n:" ++ (label ++ text ") RETURN count(n)")) db in
      (answer >>= λ rows. ok (count_or_zero (first_count display rows)), db')

  unfoldable pub count_relationship :
      Text → Database → Outcome (StoreError DbError IoError) ℕ × Database
  unfolding ask first_count
  count_relationship rel_type db =
      let (answer, db') =
        ask (text "MATCH ()-[r:" ++ (rel_type ++ text "]->() RETURN count(r)")) db in
      (answer >>= λ rows. ok (count_or_zero (first_count display rows)), db')

  run_ddl_total :
      ((ddl : Text) (d : Database) → (driver.query ddl d).0 ≢ panic)
      → (ddls : List Text) (db : Database) → (run_ddl ddls db).0 ≡ ok tt
  unfolding run_ddl
  run_ddl_total calm [] db = refl
  run_ddl_total calm (ddl ∷ rest) db =
      let ih = run_ddl_total calm rest (driver.query ddl db).1 in
      let never = calm ddl db in ground arith

  -- The schema is set up on every database that can be connected to and whose queries do not panic:
  -- a table that cannot be created is skipped.
  pub create_tables_total :
      (db : Database)
      → driver.connect db ≡ ok tt
      → ((ddl : Text) (d : Database) → (driver.query ddl d).0 ≢ panic)
      → (create_tables db).0 ≡ ok tt
  unfolding create_tables
  create_tables_total db connects calm =
      let all = run_ddl_total calm init_schema db in rw (connects, create_tables) all
