-- ===== src/Store/Batch/Joined.antt =====
-- Two batches against one that holds the events of both: a database that runs its scripts in order is
-- left the same.
use esgraph.Prelude.{
  ◌<◌, ◌≡◌, sym, ap, ◌∙◌, List, [], ◌∷◌, ◌++◌, append-nil, length, ok, Option, arith,
}
use esgraph.Prelude.Text.{Text, join}
use esgraph.Store.Cypher.Script.{separator}
use esgraph.Core.Model.{EventDetails, NormalisedEvent}
use esgraph.Store.Batch.{
  IngestStats, no_stats, Driver, Building, StoreState, nothing_built, push_events, commit,
  ingest_connected, ingest_batch,
}
use esgraph.Store.Batch.Counts.{
  add_stats, add_no_stats, add_stats_none, push_events-stats, totals_pos,
}
use esgraph.Store.Batch.Commits.{ingest_batch-IsCommitted}
use esgraph.Store.Batch.Appends.{
  behind, push_events-behind, push_events-append, join-append, behind-nothing_built,
}

-- A database that runs a script of statements one after the other: two scripts that it runs, it runs
-- as one, with the same effect.
pub record RunsInOrder {Database DbError Row : Type 0} (driver : Driver Database DbError Row)
    : Type 0 where
  pub as_one :
      (a b : Text) (db : Database) (rows more : List Row)
      → (driver.query a db).0 ≡ ok rows
      → (driver.query b (driver.query a db).1).0 ≡ ok more
      → (all : List Row) × (driver.query (a ++ (separator ++ b)) db
          ≡ (ok all, (driver.query b (driver.query a db).1).1))

module _ {Database DbError Row : Type 0} (IoError : Type 0) (driver : Driver Database DbError Row)
    (to_json : EventDetails → Option Text) where
  -- A batch was built from `s` and run without an error, which leaves `s'`.
  record Ran (events : List NormalisedEvent) (s s' : StoreState Database) (stats : IngestStats)
      : Type 0 where
    built : Building
    rows : List Row
    connected : driver.connect s.db ≡ ok tt
    is_built :
        push_events {DbError = DbError} {IoError = IoError} to_json s.next_ingest_id nothing_built
          events
        ≡ (ok built, s'.next_ingest_id)
    is_run : driver.query (join separator built.statements) s.db ≡ (ok rows, s'.db)
    counted : stats ≡ built.stats

  ingest_batch-Ran :
      (event : NormalisedEvent) (rest : List NormalisedEvent) (s s' : StoreState Database)
      {stats : IngestStats}
      → ingest_batch {IoError = IoError} driver to_json (event ∷ rest) s ≡ (ok stats, s')
      → Ran (event ∷ rest) s s' stats
  ingest_batch-Ran event rest s s' h =
      let c = ingest_batch-IsCommitted IoError driver to_json event rest s (ap (λ p. p.0) h) in
      let same = ap (λ p. p.1) h in
      record {
        built = c.built;
        rows = c.rows;
        connected = unfold ingest_batch in ground (arith, h);
        is_built = cc;
        is_run = cc;
        counted = c.counted;
      }

  -- And a batch of at least one event of which that holds is ingested.
  Ran-ingest_batch :
      (event : NormalisedEvent) (rest : List NormalisedEvent) (s s' : StoreState Database)
      {stats : IngestStats}
      → Ran (event ∷ rest) s s' stats
      → ingest_batch {IoError = IoError} driver to_json (event ∷ rest) s ≡ (ok stats, s')
  unfolding ingest_batch ingest_connected commit
  Ran-ingest_batch event rest s s' r = ground (arith, r.connected, r.is_built, r.is_run, r.counted)

  -- What has been run has statements.
  has_statements :
      (event : NormalisedEvent) (rest : List NormalisedEvent) (s s' : StoreState Database)
      {stats : IngestStats} (r : Ran (event ∷ rest) s s' stats)
      → 0 < length r.built.statements
  has_statements event rest s s' r = omega (
    arith,
    push_events-stats to_json s.next_ingest_id nothing_built (event ∷ rest)
        (ap (λ p. p.0) r.is_built),
    totals_pos event rest,
  )

  Ran-append :
      RunsInOrder driver
      → (x : NormalisedEvent) (xs : List NormalisedEvent) (y : NormalisedEvent)
        (ys : List NormalisedEvent) (s t u : StoreState Database) {first second : IngestStats}
      → Ran (x ∷ xs) s t first
      → Ran (y ∷ ys) t u second
      → Ran (x ∷ xs ++ y ∷ ys) s u (add_stats first second)
  unfolding behind
  Ran-append ordered x xs y ys s t u a b =
      let (all, run) =
        ordered.as_one (join separator a.built.statements) (join separator b.built.statements) s.db
          a.rows b.rows (ap (λ p. p.0) a.is_run) (rw a.is_run (ap (λ p. p.0) b.is_run)) in
      record {
        built = behind a.built b.built;
        rows = all;
        connected = a.connected;
        is_built =
            push_events-append to_json s.next_ingest_id nothing_built (x ∷ xs) (y ∷ ys) a.is_built
            ∙ ap (λ c. push_events to_json t.next_ingest_id c (y ∷ ys))
                (sym (behind-nothing_built a.built))
            ∙ push_events-behind a.built to_json t.next_ingest_id nothing_built (y ∷ ys) b.is_built;
        is_run =
            ap (λ script. driver.query script s.db)
              (join-append separator a.built.statements b.built.statements
                (has_statements x xs s t a) (has_statements y ys t u b))
            ∙ run
            ∙ ap (λ db. (ok all, db)) (rw a.is_run (ap (λ p. p.1) b.is_run));
        counted = unfold add_stats in ground (arith, a.counted, b.counted);
      }

  ingest_batch-nil :
      (s t : StoreState Database) {stats : IngestStats}
      → ingest_batch {IoError = IoError} driver to_json [] s ≡ (ok stats, t)
      → (stats ≡ no_stats) × (t ≡ s)
  unfolding ingest_batch
  ingest_batch-nil s t h = ground arith

  -- If the database runs its scripts in order, then two batches that are ingested one after the other
  -- are ingested as one: with the sums of their counters, to the same database and counter of ids.
  pub ingest_batch-append :
      RunsInOrder driver
      → (xs ys : List NormalisedEvent) (s t u : StoreState Database) {first second : IngestStats}
      → ingest_batch {IoError = IoError} driver to_json xs s ≡ (ok first, t)
      → ingest_batch {IoError = IoError} driver to_json ys t ≡ (ok second, u)
      → ingest_batch {IoError = IoError} driver to_json (xs ++ ys) s
        ≡ (ok (add_stats first second), u)
  ingest_batch-append ordered [] ys s t u h k =
      let (none, same) = ingest_batch-nil s t h in
      rw (none, add_no_stats) (ap (ingest_batch driver to_json ys) (sym same) ∙ k)
  ingest_batch-append ordered (x ∷ xs) [] s t u h k =
      let (none, same) = ingest_batch-nil t u k in rw (none, add_stats_none, same, append-nil) h
  ingest_batch-append ordered (x ∷ xs) (y ∷ ys) s t u h k = Ran-ingest_batch x (xs ++ y ∷ ys) s u (
      Ran-append ordered x xs y ys s t u (ingest_batch-Ran x xs s t h)
        (ingest_batch-Ran y ys t u k))
