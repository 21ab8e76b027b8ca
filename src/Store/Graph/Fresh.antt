-- ===== src/Store/Graph/Fresh.antt =====
-- The ids that a store hands out after it has been opened.
use esgraph.Prelude.{
  ℕ, ◌-◌, ◌^◌, ◌<◌, ◌≤◌, ◌≡◌, ◌⊎◌, inl, inr, refl, ap, subst, ◌∙◌, Option, none, some, List, [],
  ◌∷◌, All, All-mono, ok, bind-eq-ok, ok-injective, arith,
}
use esgraph.Prelude.Int.{pos}
use esgraph.Prelude.Text.{Text, text}
use esgraph.Store.Cypher.{Value, int64, parse_count_value}
use esgraph.Store.Batch.{Driver, StoreState}
use esgraph.Store.Graph.{
  Row, first_count, max_id_query, Opener, next_id, ask, create_tables, load_next_ingest_id,
  make_parent, open_database, open_store,
}

next_id_above : (o : Option ℕ) {id : ℕ} → o ≡ some id → id < 2 ^ 64 - 1 → id < next_id o
unfolding next_id
next_id_above none h small = absurd (ground arith)
next_id_above (some n) h small = ground arith

-- The cells of one row that hold this id, an `INT64`.
abbrev pub id_row : {Other : Type 0} → ℕ → List (Row Other)
id_row m = (int64 (pos m) ∷ []) ∷ []

-- What Cypher says of the query that orders the events by id, the greatest first, and takes one row:
-- there is no row where there is no event, and otherwise the row holds an id that none exceeds. `ids`
-- are those of the events of a database.
pub record TellsLast {Database DbError Other : Type 0}
    (driver : Driver Database DbError (Row Other)) (ids : Database → List ℕ) : Type 0 where
  pub last :
      (db : Database) {rows : List (Row Other)}
      → (driver.query
          (text "MATCH (e:IngestEvent) RETURN e.id AS id ORDER BY e.id DESC LIMIT 1")
          db).0
        ≡ ok rows
      → ((ids db ≡ []) × (rows ≡ []))
        ⊎ ((m : ℕ) × (rows ≡ id_row m) × (m < 2 ^ 63) × All (λ i. i ≤ m) (ids db))

below_next :
    (m : ℕ) (is : List ℕ) {o : Option ℕ}
    → o ≡ some m
    → m < 2 ^ 63
    → All (λ i. i ≤ m) is
    → All (λ i. i < next_id o) is
below_next m is e small h =
    let above = next_id_above _ e (omega (arith, small)) in
    All-mono (λ i. i ≤ m) _ is (λ i k. omega (arith, k, above)) h

first_count-id_row :
    {Other : Type 0} (display : Value Other → Text) (m : ℕ)
    → first_count display (id_row m) ≡ some m
unfolding first_count parse_count_value
first_count-id_row display m = refl

module _ {Database DbError IoError Other : Type 0} (driver : Driver Database DbError (Row Other))
    (display : Value Other → Text) where
  ask-ok :
      (cypher : Text) (db : Database) {rows : List (Row Other)}
      → (ask {IoError = IoError} driver display cypher db).0 ≡ ok rows
      → (driver.query cypher db).0 ≡ ok rows
  unfolding ask
  ask-ok cypher db h = ground arith

  -- The first id of a database is above all that it has.
  loads :
      (ids : Database → List ℕ) (db : Database) {next : ℕ}
      → TellsLast driver ids
      → (load_next_ingest_id {IoError = IoError} driver display db).0 ≡ ok next
      → All (λ i. i < next) (ids db)
  unfolding load_next_ingest_id
  loads ids db {next} tells h =
      let (rows, asked, done) =
        bind-eq-ok (ask {IoError = IoError} driver display max_id_query db).0 _ h in
      let read : next_id (first_count display rows) ≡ next = ok-injective done in
      subst (λ n. All (λ i. i < n) (ids db)) read
        (elim (tells.last db (ask-ok max_id_query db asked)) [
          | inl (none_yet, no_row) ↦ rw none_yet tt
          | inr (m, row, small, greatest) ↦
              below_next m (ids db) (ap (first_count display) row ∙ first_count-id_row display m)
                small greatest
        ])

  opens :
      (opener : Opener Database DbError IoError) (path : Text) {base : Database}
      → opener.new_database path ≡ ok base
      → {db : Database} → open_database driver display opener path ≡ ok db
      → db ≡ base
  unfolding open_database
  opens opener path e h = ground arith

  -- If the query for the last id does what Cypher says of it, then a store that is opened has its next
  -- id above the ids of all events in the database that it opened and whose tables it created.
  pub open_store_fresh :
      (ids : Database → List ℕ) (opener : Opener Database DbError IoError) (path : Text)
      (base : Database) {store : StoreState Database}
      → TellsLast driver ids
      → opener.new_database path ≡ ok base
      → open_store driver display opener path ≡ ok store
      → All
          (λ id. id < store.next_ingest_id)
          (ids (create_tables {IoError = IoError} driver display base).1)
  unfolding open_store
  open_store_fresh ids opener path base {store} tells e h =
      let (made, e1, h1) = bind-eq-ok (make_parent driver display opener path) _ h in
      let (db, e2, h2) = bind-eq-ok (open_database driver display opener path) _ h1 in
      let (u, e3, h3) = bind-eq-ok (create_tables driver display db).0 _ h2 in
      let (next, e4, h4) =
        bind-eq-ok (load_next_ingest_id driver display (create_tables driver display db).1).0 _
          h3 in
      let kept : next ≡ store.next_ingest_id =
        ap (λ (s : StoreState Database). s.next_ingest_id) (ok-injective h4) in
      let above = loads ids (create_tables {IoError = IoError} driver display db).1 tells e4 in
      subst
        (λ d.
          All (λ id. id < store.next_ingest_id)
            (ids (create_tables {IoError = IoError} driver display d).1))
        (opens opener path e e2)
        (subst
          (λ n. All (λ id. id < n) (ids (create_tables {IoError = IoError} driver display db).1))
          kept above)
