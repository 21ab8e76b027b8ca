-- ===== src/Store/Ingester.antt =====
-- What the writer thread relies on of the store: a batch is ingested or refused, and the counters
-- that come back are those of the batch. `GraphStore::ingest` (store.rs) implements it.
use esgraph.Prelude.{List, ◌≡◌, Outcome, ok, Option}
use esgraph.Prelude.Text.{Text}
use esgraph.Core.Model.{EventDetails, NormalisedEvent}
use esgraph.Store.Statements.{StoreError}
use esgraph.Store.Batch.{IngestStats, Driver, StoreState, ingest_batch}
use esgraph.Store.Batch.Counts.{totals}
use esgraph.Store.Batch.Commits.{ingest_batch-stats}

pub record Ingester (Store Error : Type 0) : Type 0 where
  pub ingest : List NormalisedEvent → Store → Outcome Error IngestStats × Store
  pub ingest-totals :
      (events : List NormalisedEvent) (s : Store) (stats : IngestStats)
      → (ingest events s).0 ≡ ok stats
      → stats ≡ totals events

-- `GraphStore::ingest`
abbrev pub graph_store :
    {Database DbError Row : Type 0} (IoError : Type 0)
    → Driver Database DbError Row
    → (EventDetails → Option Text)
    → Ingester (StoreState Database) (StoreError DbError IoError)
graph_store IoError driver to_json = record {
  ingest = ingest_batch driver to_json;
  ingest-totals = λ events s stats h. ingest_batch-stats IoError driver to_json events s h;
}
