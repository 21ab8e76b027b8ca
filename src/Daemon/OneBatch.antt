-- ===== src/Daemon/OneBatch.antt =====
-- crates/esgraphd/src/main.rs against crates/esgraph-store/src/ingest.rs: the batches that the writer
-- makes are not seen in the store.
use esgraph.Prelude.{ℕ, ◌≡◌, sym, ap, ◌∙◌, false, List, [], ◌∷◌, ◌++◌, concat, ok, Option}
use esgraph.Prelude.Text.{Text}
use esgraph.Core.Model.{EventDetails, NormalisedEvent}
use esgraph.Core.Config.{StoreConfig}
use esgraph.Store.Statements.{StoreError}
use esgraph.Store.Batch.{Driver, StoreState, ingest_batch}
use esgraph.Store.Batch.Counts.{totals, add_stats, totals-append}
use esgraph.Store.Batch.Commits.{ingest_batch-stats}
use esgraph.Store.Batch.Joined.{RunsInOrder, ingest_batch-append}
use esgraph.Store.Ingester.{graph_store}
use esgraph.Daemon.Writer.{Writer, left}
use esgraph.Daemon.Writer.Ledger.{Ingests}
use esgraph.Daemon.Run.{System, Reach}
use esgraph.Daemon.Run.Conserves.{Reach-IsDelivered}

module _ {Database DbError Row : Type 0} (IoError : Type 0) (driver : Driver Database DbError Row)
    (to_json : EventDetails → Option Text) where
  Ingests-concat :
      RunsInOrder driver
      → (s : StoreState Database) (batches : List (List NormalisedEvent)) (s' : StoreState Database)
      → Ingests (graph_store IoError driver to_json) s batches s'
      → ingest_batch {IoError = IoError} driver to_json (concat batches) s
        ≡ (ok (totals (concat batches)), s')
  Ingests-concat ordered s [] s' same =
      unfold ingest_batch totals in ap (λ t. (ok (totals []), t)) same
  Ingests-concat ordered s (b ∷ bs) s' (stats, done, more) =
      let s1 = (ingest_batch {IoError = IoError} driver to_json b s).1 in
      let counted : add_stats stats (totals (concat bs)) ≡ totals (b ++ concat bs) =
        ap (λ t. add_stats t (totals (concat bs)))
          (ingest_batch-stats IoError driver to_json b s done)
        ∙ sym (totals-append b (concat bs)) in
      ingest_batch-append IoError driver to_json ordered b (concat bs) s s1 s'
        (ap (λ o. (o, s1)) done) (Ingests-concat ordered s1 bs s' more)
      ∙ ap (λ t. (ok t, s')) counted

  -- However the collector, the channel and the writer take turns: if the database runs its scripts in
  -- order and the writer has returned without an error, then the events that it took from the
  -- channel, which are all that the channel took but those that were in it when the writer returned,
  -- make the same of the store, and the same counters, when they are ingested as a single batch.
  pub Reach-ingest_batch :
      RunsInOrder driver
      → (config : StoreConfig) (store : StoreState Database) (now : ℕ)
        {s : System (StoreState Database) (StoreError DbError IoError)}
        {w : Writer (StoreState Database)}
      → Reach (graph_store IoError driver to_json) config store now s
      → s.receiving ≡ false
      → s.writer ≡ left w
      → (taken : List NormalisedEvent) × (taken ++ s.dropped ≡ s.sent)
        × (ingest_batch {IoError = IoError} driver to_json taken store ≡ (ok w.total, w.store))
  Reach-ingest_batch ordered config store now {w = w} r away is_left =
      let d =
        Reach-IsDelivered (graph_store IoError driver to_json) config store now r away is_left in
      (
        concat d.batches,
        d.in_order,
        Ingests-concat ordered store d.batches _ d.ingests
            ∙ ap (λ t. (ok t, w.store)) (sym d.counted),
      )
