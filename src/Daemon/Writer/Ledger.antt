-- ===== src/Daemon/Writer/Ledger.antt =====
-- An account of what a writer has taken in and ingested, and that it adds up.
use mathlib.Core.Path.{◌≡⟨◌⟩◌, ◌∎}
use esgraph.Prelude.{
  ◌≢◌, ◌≡◌, refl, sym, ap, ◌∙◌, List, [], ◌∷◌, ◌++◌, concat, concat-append, append_assoc,
  append-nil, ok, arith,
}
use esgraph.Core.Model.{NormalisedEvent}
use esgraph.Store.Batch.{IngestStats}
use esgraph.Store.Batch.Counts.{totals, add_stats, add_stats_assoc, add_stats_none, totals-append}
use esgraph.Store.Ingester.{Ingester}
use esgraph.Daemon.Writer.{
  Observed, stopping, received, timed_out, disconnected, Writer, running, left, flush_batch,
}

-- The events that a turn takes from the channel.
abbrev pub events_of : Observed → List NormalisedEvent
events_of (stopping drained) = drained
events_of (received ev now) = ev ∷ []
events_of (timed_out elapsed_at now) = []
events_of disconnected = []

abbrev pub all_events : List Observed → List NormalisedEvent
all_events [] = []
all_events (seen ∷ rest) = events_of seen ++ all_events rest

-- The events that the loop takes before it ends: those of its turns up to the first that sees the flag,
-- which drains the channel, or the end of the channel.
abbrev pub taken : List Observed → List NormalisedEvent
taken [] = []
taken (stopping drained ∷ rest) = drained
taken (received ev now ∷ rest) = ev ∷ taken rest
taken (timed_out elapsed_at now ∷ rest) = taken rest
taken (disconnected ∷ rest) = []

module _ {Store Error : Type 0} (ingester : Ingester Store Error) where
  -- The store takes these batches one after the other, each with success.
  abbrev pub Ingests : Store → List (List NormalisedEvent) → Store → Type 0
  Ingests s [] s' = s ≡ s'
  Ingests s (b ∷ bs) s' =
      (stats : IngestStats) × ((ingester.ingest b s).0 ≡ ok stats)
      × Ingests (ingester.ingest b s).1 bs s'

  -- From `w` to `w'` the writer has taken in `events`, and has ingested batches that hold what was
  -- pending and the events, in order, but for what is pending still.
  pub record Writes (w w' : Writer Store) (events : List NormalisedEvent) : Type 0 where
    pub batches : List (List NormalisedEvent)
    pub in_order : concat batches ++ w'.batch ≡ w.batch ++ events
    pub ingests : Ingests w.store batches w'.store
    pub counted : w'.total ≡ add_stats w.total (totals (concat batches))

  Ingests-append :
      (s : Store) (bs : List (List NormalisedEvent)) (t : Store) (cs : List (List NormalisedEvent))
      (u : Store)
      → Ingests s bs t
      → Ingests t cs u
      → Ingests s (bs ++ cs) u
  Ingests-append s [] t cs u e k = rw e k
  Ingests-append s (b ∷ bs) t cs u (stats, done, more) k =
      (stats, done, Ingests-append (ingester.ingest b s).1 bs t cs u more k)

  pub Writes-refl : (w : Writer Store) → Writes w w []
  Writes-refl w = record {
    batches = [];
    in_order = sym (append-nil w.batch);
    ingests = refl;
    counted = unfold totals in sym (add_stats_none w.total);
  }

  -- Events that are put behind the pending ones.
  pub Writes-push :
      (w : Writer Store) (es : List NormalisedEvent)
      → Writes w (record w { batch = w.batch ++ es }) es
  Writes-push w es = record {
    batches = [];
    in_order = refl;
    ingests = refl;
    counted = unfold totals in sym (add_stats_none w.total);
  }

  pub Writes-trans :
      (u v w : Writer Store) (es fs : List NormalisedEvent)
      → Writes u v es
      → Writes v w fs
      → Writes u w (es ++ fs)
  Writes-trans u v w es fs a b = record {
    batches = a.batches ++ b.batches;
    in_order =
        concat (a.batches ++ b.batches) ++ w.batch
        ≡⟨ (simp (concat-append, append_assoc)) ⟩ concat a.batches ++ (concat b.batches ++ w.batch)
        ≡⟨ ap (◌++◌ (concat a.batches)) b.in_order ⟩ concat a.batches ++ (v.batch ++ fs)
        ≡⟨ sym (append_assoc (concat a.batches) v.batch fs) ⟩ (concat a.batches ++ v.batch) ++ fs
        ≡⟨ ap (λ l. l ++ fs) a.in_order ⟩ (u.batch ++ es) ++ fs
        ≡⟨ append_assoc u.batch es fs ⟩ u.batch ++ (es ++ fs) ∎;
    ingests = Ingests-append u.store a.batches v.store b.batches w.store a.ingests b.ingests;
    counted =
        rw (concat-append a.batches b.batches, totals-append (concat a.batches) (concat b.batches))
          (b.counted
            ∙ ap (λ t. add_stats t (totals (concat b.batches))) a.counted
            ∙ add_stats_assoc u.total _ _);
  }

  flush_batch-running :
      (w : Writer Store) {w' : Writer Store}
      → flush_batch ingester w ≡ running w'
      → (stats : IngestStats) × ((ingester.ingest w.batch w.store).0 ≡ ok stats)
        × (w' ≡ record w {
          store = (ingester.ingest w.batch w.store).1;
          total = add_stats w.total stats;
          batch = [];
        })
  unfolding flush_batch
  flush_batch-running w h = ground arith

  pub flush_batch-ne-left :
      (w : Writer Store) {w' : Writer Store} → flush_batch ingester w ≢ left w'
  unfolding flush_batch
  flush_batch-ne-left w h = ground arith

  pub flush_batch-Writes :
      (w : Writer Store) {w' : Writer Store} → flush_batch ingester w ≡ running w' → Writes w w' []
  flush_batch-Writes w h =
      let (stats, done, is) = flush_batch-running w h in
      rw is (record {
        batches = w.batch ∷ [];
        in_order = append-nil (w.batch ++ []);
        ingests = (stats, done, refl);
        counted =
            rw append-nil
              (ap (add_stats w.total) (ingester.ingest-totals w.batch w.store stats done));
      })
