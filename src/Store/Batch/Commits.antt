-- ===== src/Store/Batch/Commits.antt =====
-- A batch that succeeds: what it has built, what it has run, and what it returns.
use esgraph.Prelude.{ℕ, ◌+◌, ◌%◌, ◌^◌, ◌<◌, ◌≡◌, ◌∙◌, List, [], ◌∷◌, length, ok, Option, arith}
use esgraph.Prelude.Text.{Text, join}
use esgraph.Store.Cypher.Script.{separator}
use esgraph.Core.Model.{EventDetails, NormalisedEvent}
use esgraph.Store.Batch.{
  IngestStats, Driver, Building, StoreState, nothing_built, push_events, ingest_connected,
  ingest_batch, commit,
}
use esgraph.Store.Batch.Counts.{totals, add_no_stats, push_events-stats, push_events-next}

module _ {Database DbError Row : Type 0} (IoError : Type 0) (driver : Driver Database DbError Row)
    (to_json : EventDetails → Option Text) where
  -- The script of a batch was built from `s`, and was run without an error.
  pub record IsCommitted (events : List NormalisedEvent) (s s' : StoreState Database)
      (stats : IngestStats) : Type 0 where
    pub built : Building
    pub is_built :
        (push_events {DbError = DbError} {IoError = IoError} to_json s.next_ingest_id nothing_built
          events).0
        ≡ ok built
    pub rows : List Row
    pub is_run : (driver.query (join separator built.statements) s.db).0 ≡ ok rows
    pub counted : stats ≡ built.stats
    pub db_is : s'.db ≡ (driver.query (join separator built.statements) s.db).1
    pub next_is :
        s'.next_ingest_id
        ≡ (push_events {DbError = DbError} {IoError = IoError} to_json s.next_ingest_id
            nothing_built events).1

  commit-rows :
      (next : ℕ) (b : Building) (db : Database) {stats : IngestStats}
      → (commit {IoError = IoError} driver next b db).0 ≡ ok stats
      → (rows : List Row) × ((driver.query (join separator b.statements) db).0 ≡ ok rows)
        × (stats ≡ b.stats)
        × ((commit {IoError = IoError} driver next b db).1 ≡ record {
          db = (driver.query (join separator b.statements) db).1;
          next_ingest_id = next;
        })
  unfolding commit
  commit-rows next b db h = ground arith

  connected-built :
      (events : List NormalisedEvent) (s : StoreState Database) {stats : IngestStats}
      → (ingest_connected {IoError = IoError} driver to_json events s).0 ≡ ok stats
      → (b : Building) × ((push_events {DbError = DbError} {IoError = IoError} to_json
            s.next_ingest_id nothing_built events).0
          ≡ ok b)
        × (ingest_connected {IoError = IoError} driver to_json events s
            ≡ commit driver
                (push_events {DbError = DbError} {IoError = IoError} to_json s.next_ingest_id
                  nothing_built events).1
                b
                s.db)
  unfolding ingest_connected
  connected-built events s h = ground arith

  connected-IsCommitted :
      (events : List NormalisedEvent) (s : StoreState Database) {stats : IngestStats}
      → (ingest_connected {IoError = IoError} driver to_json events s).0 ≡ ok stats
      → IsCommitted events s (ingest_connected {IoError = IoError} driver to_json events s).1 stats
  connected-IsCommitted events s h =
      let (b, built, same) = connected-built events s h in
      let (rows, run, counted, after) = commit-rows _ b s.db (rw same at h) in
      rw same (record {
        built = b;
        is_built = built;
        rows = rows;
        is_run = run;
        counted = counted;
        db_is = rw after;
        next_is = rw after;
      })

  ingest_batch-connected :
      (event : NormalisedEvent) (rest : List NormalisedEvent) (s : StoreState Database)
      {stats : IngestStats}
      → (ingest_batch {IoError = IoError} driver to_json (event ∷ rest) s).0 ≡ ok stats
      → ingest_batch {IoError = IoError} driver to_json (event ∷ rest) s
        ≡ ingest_connected driver to_json (event ∷ rest) s
  unfolding ingest_batch
  ingest_batch-connected event rest s h = ground arith

  -- A batch of at least one event that succeeds was committed.
  pub ingest_batch-IsCommitted :
      (event : NormalisedEvent) (rest : List NormalisedEvent) (s : StoreState Database)
      {stats : IngestStats}
      → (ingest_batch {IoError = IoError} driver to_json (event ∷ rest) s).0 ≡ ok stats
      → IsCommitted
          (event ∷ rest)
          s
          (ingest_batch {IoError = IoError} driver to_json (event ∷ rest) s).1
          stats
  ingest_batch-IsCommitted event rest s h =
      let same = ingest_batch-connected event rest s h in
      rw same (connected-IsCommitted (event ∷ rest) s (rw same at h))

  pub ingest_batch-stats :
      (events : List NormalisedEvent) (s : StoreState Database) {stats : IngestStats}
      → (ingest_batch {IoError = IoError} driver to_json events s).0 ≡ ok stats
      → stats ≡ totals events
  ingest_batch-stats [] s h = unfold ingest_batch totals in ground arith
  ingest_batch-stats (event ∷ rest) s h =
      let c = ingest_batch-IsCommitted event rest s h in
      let counts =
        push_events-stats to_json s.next_ingest_id nothing_built (event ∷ rest) c.is_built in
      c.counted ∙ counts.0 ∙ add_no_stats (totals (event ∷ rest))

  ingest_batch-next :
      (events : List NormalisedEvent) (s : StoreState Database) {stats : IngestStats}
      → s.next_ingest_id < 2 ^ 64
      → (ingest_batch {IoError = IoError} driver to_json events s).0 ≡ ok stats
      → (ingest_batch {IoError = IoError} driver to_json events s).1.next_ingest_id
        ≡ (s.next_ingest_id + length events) % 2 ^ 64
  ingest_batch-next [] s small h = unfold ingest_batch in ground arith
  ingest_batch-next (event ∷ rest) s small h =
      let c = ingest_batch-IsCommitted event rest s h in
      c.next_is
      ∙ push_events-next to_json s.next_ingest_id nothing_built (event ∷ rest) small c.is_built

  -- A batch that succeeds returns the number of its events and of the nodes and edges that they
  -- carry, and advances the counter of ingest ids by one for each event, modulo 2^64.
  pub ingest_batch-totals :
      (events : List NormalisedEvent) (s : StoreState Database) {stats : IngestStats}
      → s.next_ingest_id < 2 ^ 64
      → (ingest_batch {IoError = IoError} driver to_json events s).0 ≡ ok stats
      → (stats ≡ totals events)
        × ((ingest_batch {IoError = IoError} driver to_json events s).1.next_ingest_id
            ≡ (s.next_ingest_id + length events) % 2 ^ 64)
  ingest_batch-totals events s small h =
      (ingest_batch-stats events s h, ingest_batch-next events s small h)
