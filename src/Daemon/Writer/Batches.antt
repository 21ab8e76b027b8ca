-- ===== src/Daemon/Writer/Batches.antt =====
-- Nothing that the writer receives is lost, repeated or reordered: it is ingested in batches.
use esgraph.Prelude.{
  ℕ, Bool-cases, inl, inr, ◌⊎◌, is_empty, subst, ◌≡◌, sym, ap, ◌∙◌, List, [], ◌++◌, concat,
  append-nil, arith,
}
use esgraph.Core.Model.{NormalisedEvent}
use esgraph.Core.Config.{StoreConfig}
use esgraph.Store.Batch.Counts.{totals, add_no_stats}
use esgraph.Store.Ingester.{Ingester}
use esgraph.Daemon.Writer.{
  Observed, Writer, Turn, running, left, failed, panicked, leave, flush_batch, run, finish, started,
  writer_loop,
}
use esgraph.Daemon.Writer.Ledger.{
  taken, Ingests, Writes, Writes-trans, flush_batch-ne-left, flush_batch-Writes,
}
use esgraph.Daemon.Writer.Takes.{WritesTo, run-WritesTo}

module _ {Store Error : Type 0} (ingester : Ingester Store Error) where
  pub flush_batch-empty :
      (w : Writer Store) {w' : Writer Store} → flush_batch ingester w ≡ running w' → w'.batch ≡ []
  unfolding flush_batch
  flush_batch-empty w h = ground arith

  leave-eq-left :
      (t : Turn Store Error) {v : Writer Store} → leave t ≡ left v → (t ≡ running v) ⊎ (t ≡ left v)
  leave-eq-left t h = ground arith

  finish_pending :
      (u v : Writer Store)
      → leave (flush_batch ingester u) ≡ left v
      → Writes ingester u v [] × (v.batch ≡ [])
  finish_pending u v e = elim (leave-eq-left (flush_batch ingester u) e) [
    | inl done ↦ (flush_batch-Writes ingester u done, flush_batch-empty u done)
    | inr never ↦ absurd (flush_batch-ne-left ingester u never)
  ]

  -- Behind the loop nothing stays pending.
  pub finish-WritesTo :
      (w v : Writer Store) (es : List NormalisedEvent) (t : Turn Store Error)
      → WritesTo ingester w t es
      → finish ingester t ≡ left v
      → Writes ingester w v es × (v.batch ≡ [])
  unfolding finish
  finish-WritesTo w v es (running u) h e = absurd (ground arith)
  finish-WritesTo w v es (left u) h e = elim (Bool-cases (is_empty u.batch)) [
    | inl nothing ↦
        let same : u ≡ v = ground arith in
        (subst (λ x. Writes ingester w x es) same h, ground arith)
    | inr some ↦
        let flushed : leave (flush_batch ingester u) ≡ left v = rw (some, finish) at e in
        let (more, empty) = finish_pending u v flushed in
        (
          subst (Writes ingester w v) (append-nil es) (Writes-trans ingester w u v es [] h more),
          empty,
        )
  ]
  finish-WritesTo w v es (failed x store) h e = absurd (ground arith)
  finish-WritesTo w v es (panicked store) h e = absurd (ground arith)

  -- The writer has made the store ingest these events, once and in order, and its counters are theirs.
  pub record Ingested (events : List NormalisedEvent) (store : Store) (w : Writer Store)
      : Type 0 where
    pub batches : List (List NormalisedEvent)
    pub in_order : concat batches ≡ events
    pub ingests : Ingests ingester store batches w.store
    pub counted : w.total ≡ totals events
    pub nothing_pending : w.batch ≡ []

  -- A writer that took these events in, of which none is pending.
  pub Writes-Ingested :
      (events : List NormalisedEvent) (store : Store) (now : ℕ) {w : Writer Store}
      → Writes ingester (started ingester store now) w events
      → w.batch ≡ []
      → Ingested events store w
  Writes-Ingested events store now account empty =
      let ordered : concat account.batches ≡ events =
        sym (append-nil (concat account.batches))
        ∙ ap (◌++◌ (concat account.batches)) (sym empty)
        ∙ account.in_order in
      record {
        batches = account.batches;
        in_order = ordered;
        ingests = account.ingests;
        counted =
            account.counted ∙ add_no_stats (totals (concat account.batches)) ∙ ap totals ordered;
        nothing_pending = empty;
      }

  -- A run that took these events in, where the loop behind it returns.
  pub finish-Ingested :
      (events : List NormalisedEvent) (store : Store) (now : ℕ) (t : Turn Store Error)
      {w : Writer Store}
      → WritesTo ingester (started ingester store now) t events
      → finish ingester t ≡ left w
      → Ingested events store w
  finish-Ingested events store now t {w} writes h =
      let (account, empty) = finish-WritesTo (started ingester store now) w events t writes h in
      Writes-Ingested events store now account empty

  -- A writer that ends without an error has ingested, in batches, every event that its loop took from
  -- the channel, once and in order: those of its turns up to the first that saw the flag, with all that
  -- this one drained, or the end of the channel. It returns the counts of these events, and nothing
  -- stays pending.
  pub writer_loop-Delivers :
      (config : StoreConfig) (observed : List Observed) (store : Store) (now : ℕ) {w : Writer Store}
      → writer_loop ingester config observed store now ≡ left w
      → Ingested (taken observed) store w
  unfolding writer_loop
  writer_loop-Delivers config observed store now h =
      let first = started ingester store now in
      finish-Ingested (taken observed) store now (run ingester config observed first)
        (run-WritesTo ingester config observed first) h
