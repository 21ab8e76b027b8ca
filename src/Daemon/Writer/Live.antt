-- ===== src/Daemon/Writer/Live.antt =====
-- A writer whose store takes every batch comes to a regular end.
use esgraph.Prelude.{
  ℕ, ◌++◌, ◌-◌, ◌≡◌, ◌≢◌, refl, true, false, Bool, Bool-cases, not, ◌&&◌, inl, inr, leb, is_empty,
  length, if◌then◌else◌, All, All-append, All-split, List, [], ◌∷◌, ok,
}
use Prim.Native.Nat.{max}
use esgraph.Core.Model.{NormalisedEvent}
use esgraph.Core.Config.{StoreConfig}
use esgraph.Store.Batch.{IngestStats}
use esgraph.Store.Ingester.{Ingester}
use esgraph.Daemon.Writer.{
  Observed, stopping, received, timed_out, disconnected, Writer, Turn, running, left, failed,
  panicked, leave, stamp, and_then, flush_batch, flush_full, flush_due, stop, turn, run, finish,
  started, writer_loop,
}
use esgraph.Daemon.Writer.Ledger.{events_of, all_events, taken, flush_batch-ne-left}
use esgraph.Daemon.Writer.Batches.{Ingested, writer_loop-Delivers}
use esgraph.Daemon.Writer.Ends.{IsLast, run_ends}

module _ {Store Error : Type 0} (P : NormalisedEvent → Type 0) where
  -- The turn ends neither with an error nor by a panic, and the events that are pending then have the
  -- property.
  abbrev pub Lives : Turn Store Error → Type 0
  Lives (running w) = All P w.batch
  Lives (left w) = All P w.batch
  Lives (failed e store) = ⊥
  Lives (panicked store) = ⊥

  stamp-Lives : (now : ℕ) (t : Turn Store Error) → Lives t → Lives (stamp now t)
  stamp-Lives now (running w) h = h
  stamp-Lives now (left w) h = h
  stamp-Lives now (failed e store) h = h
  stamp-Lives now (panicked store) h = h

  leave-Lives : (t : Turn Store Error) → Lives t → Lives (leave t)
  leave-Lives (running w) h = h
  leave-Lives (left w) h = h
  leave-Lives (failed e store) h = h
  leave-Lives (panicked store) h = h

  and_then-Lives :
      (t : Turn Store Error) (f : Writer Store → Turn Store Error)
      → Lives t
      → ((w : Writer Store) → All P w.batch → Lives (f w))
      → Lives (and_then t f)
  and_then-Lives (running w) f h g = g w h
  and_then-Lives (left w) f h g = h
  and_then-Lives (failed e store) f h g = h
  and_then-Lives (panicked store) f h g = h

  if-Lives : (b : Bool) (t u : Turn Store Error) → Lives t → Lives u → Lives (if b then t else u)
  if-Lives true t u h k = h
  if-Lives false t u h k = k

module _ {Store Error : Type 0} (ingester : Ingester Store Error) (P : NormalisedEvent → Type 0)
    (takes : (events : List NormalisedEvent)
      → All P events
      → (s : Store) → (stats : IngestStats) × ((ingester.ingest events s).0 ≡ ok stats))
    (config : StoreConfig) where
  flush_batch-Lives : (w : Writer Store) → All P w.batch → Lives P (flush_batch ingester w)
  unfolding flush_batch
  flush_batch-Lives w h = let (stats, done) = takes w.batch h w.store in rw (done, Lives) tt

  flush_full-Lives :
      (now : ℕ) (w : Writer Store) → All P w.batch → Lives P (flush_full ingester config now w)
  unfolding flush_full
  flush_full-Lives now w h =
      if-Lives P (leb (max config.batch_size 1) (length w.batch)) _ (running w)
        (stamp-Lives P now (flush_batch ingester w) (flush_batch-Lives w h)) h

  pub turn-Lives :
      (seen : Observed) (w : Writer Store)
      → All P (events_of seen)
      → All P w.batch
      → Lives P (turn ingester config seen w)
  unfolding turn stop flush_due
  turn-Lives (stopping drained) w k h =
      let w' : Writer Store = record w { batch = w.batch ++ drained } in
      let both = All-append P w.batch drained h k in
      if-Lives P (is_empty w'.batch) (left w') _ both
        (leave-Lives P (flush_batch ingester w') (flush_batch-Lives w' both))
  turn-Lives (received ev now) w k h =
      flush_full-Lives now (record w { batch = w.batch ++ ev ∷ [] })
        (All-append P w.batch (ev ∷ []) h k)
  turn-Lives (timed_out elapsed_at now) w k h =
      and_then-Lives P (flush_due ingester config elapsed_at now w) (flush_full ingester config now)
        (if-Lives P
          (not (is_empty w.batch)
            && leb (max config.flush_interval_ms 1) (elapsed_at - w.last_flush))
          _ (running w) (stamp-Lives P now (flush_batch ingester w) (flush_batch-Lives w h)) h)
        (flush_full-Lives now)
  turn-Lives disconnected w k h = h

  pub finish-Lives : (t : Turn Store Error) → Lives P t → Lives P (finish ingester t)
  unfolding finish
  finish-Lives (running w) h = h
  finish-Lives (left w) h =
      if-Lives P (is_empty w.batch) (left w) _ h
        (leave-Lives P (flush_batch ingester w) (flush_batch-Lives w h))
  finish-Lives (failed e store) h = h
  finish-Lives (panicked store) h = h

  run-Lives :
      (observed : List Observed) (w : Writer Store)
      → All P (all_events observed)
      → All P w.batch
      → Lives P (run ingester config observed w)
  unfolding run
  run-Lives [] w k h = h
  run-Lives (seen ∷ rest) w k h =
      let (now, later) = All-split P (events_of seen) (all_events rest) k in
      and_then-Lives P (turn ingester config seen w) (run ingester config rest)
        (turn-Lives seen w now h) (λ v pending. run-Lives rest v later pending)

  flush_left :
      (t : Turn Store Error)
      → Lives P t
      → ((w : Writer Store) → t ≢ left w)
      → (w : Writer Store) × (leave t ≡ left w)
  flush_left (running w) h never = (w, refl)
  flush_left (left w) h never = absurd (never w refl)
  flush_left (failed e store) h never = elim h [ ]
  flush_left (panicked store) h never = elim h [ ]

  finish-left :
      (t : Turn Store Error)
      → Lives P t
      → ((w : Writer Store) → t ≢ running w)
      → (w : Writer Store) × (finish ingester t ≡ left w)
  unfolding finish
  finish-left (running w) h ends = absurd (ends w refl)
  finish-left (left w) h ends = elim (Bool-cases (is_empty w.batch)) [
    | inl nothing ↦ (w, rw nothing refl)
    | inr some ↦
        let (w', e) =
          flush_left (flush_batch ingester w) (flush_batch-Lives w h)
            (λ v. flush_batch-ne-left ingester w) in
        (w', rw some e)
  ]
  finish-left (failed e store) h ends = elim h [ ]
  finish-left (panicked store) h ends = elim h [ ]

  -- A writer whose store takes every batch of events with some property, that receives events with
  -- that property only, and that sees the shutdown flag or the end of the channel at last, returns; it
  -- has ingested every event that it took from the channel, once and in order.
  pub writer_loop_total :
      (before : List Observed) (last : Observed) (after : List Observed) (store : Store) (now : ℕ)
      → All P (all_events (before ++ last ∷ after))
      → IsLast last
      → (w : Writer Store) × (writer_loop ingester config (before ++ last ∷ after) store now
          ≡ left w)
        × Ingested ingester (taken (before ++ last ∷ after)) store w
  writer_loop_total before last after store now fit h =
      let observed = before ++ last ∷ after in
      let first = started ingester store now in
      let (w, e) =
        finish-left (run ingester config observed first) (run-Lives observed first fit tt)
          (λ v. run_ends ingester config before last after first v h) in
      let returns : writer_loop ingester config observed store now ≡ left w =
        unfold writer_loop in e in
      (w, returns, writer_loop-Delivers ingester config observed store now returns)
