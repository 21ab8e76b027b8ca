-- ===== src/Store/Batch/Validation.antt =====
-- Which batches are written, and what a batch that is refused leaves behind.
use esgraph.Prelude.{◌≡◌, refl, List, [], ◌∷◌, All, ok, err, Option, arith}
use esgraph.Prelude.Text.{Text, join}
use esgraph.Core.Model.{EventDetails, NormalisedEvent}
use esgraph.Store.Statements.{invalid_event}
use esgraph.Store.Cypher.Script.{separator}
use esgraph.Store.Batch.{
  Building, push_events, IngestStats, no_stats, Driver, StoreState, nothing_built, ingest_batch,
  commit,
}
use esgraph.Store.Batch.Writable.{IsIngestible, push_events_total, push_events-IsIngestible}
use esgraph.Store.Batch.Commits.{ingest_batch-IsCommitted}

module _ {Database DbError Row : Type 0} (IoError : Type 0) (driver : Driver Database DbError Row)
    (to_json : EventDetails → Option Text) where
  -- In a batch that succeeds every process node has an audit token, and every edge joins nodes of
  -- known kinds.
  pub ingest_batch-IsIngestible :
      (events : List NormalisedEvent) (s : StoreState Database) {stats : IngestStats}
      → (ingest_batch {IoError = IoError} driver to_json events s).0 ≡ ok stats
      → All IsIngestible events
  ingest_batch-IsIngestible [] s h = tt
  ingest_batch-IsIngestible (event ∷ rest) s h =
      let c = ingest_batch-IsCommitted IoError driver to_json event rest s h in
      push_events-IsIngestible to_json s.next_ingest_id nothing_built (event ∷ rest) c.is_built

  -- A batch whose process nodes have audit tokens and whose edges join nodes of known kinds succeeds,
  -- if the driver connects to the database and runs the script of the batch.
  pub ingest_batch_total :
      (events : List NormalisedEvent) (s : StoreState Database)
      → All IsIngestible events
      → driver.connect s.db ≡ ok tt
      → ((event : NormalisedEvent) (rest : List NormalisedEvent) (b : Building)
          → events ≡ event ∷ rest
          → (push_events {DbError = DbError} {IoError = IoError} to_json s.next_ingest_id
              nothing_built
              (event ∷ rest)).0
            ≡ ok b
          → (rows : List Row) × ((driver.query (join separator b.statements) s.db).0 ≡ ok rows))
      → (stats : IngestStats) × ((ingest_batch {IoError = IoError} driver to_json events s).0
          ≡ ok stats)
  unfolding ingest_batch commit
  ingest_batch_total [] s h connects runs = (no_stats, refl)
  ingest_batch_total (event ∷ rest) s h connects runs =
      let (b, built) =
        push_events_total {DbError = DbError} {IoError = IoError} to_json s.next_ingest_id
          nothing_built (event ∷ rest) h in
      let (rows, run) = runs event rest b refl built in (b.stats, ground (arith, built, run))

  -- A batch that is refused as invalid has changed nothing in the database.
  pub ingest_batch_atomic :
      (events : List NormalisedEvent) (s : StoreState Database) {reason : Text}
      → (ingest_batch {IoError = IoError} driver to_json events s).0 ≡ err (invalid_event reason)
      → (ingest_batch {IoError = IoError} driver to_json events s).1.db ≡ s.db
  unfolding ingest_batch commit
  ingest_batch_atomic [] s h = refl
  ingest_batch_atomic (event ∷ rest) s h = ground arith
