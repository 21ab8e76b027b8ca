-- ===== src/Daemon/Writer/Takes.antt =====
-- What the turns of the writer take from the channel, and that it is ingested or pending.
use Prim.Native.Nat.{max}
use esgraph.Prelude.{
  ℕ, ◌-◌, Bool-cases, inl, inr, leb, length, is_empty, not, ◌&&◌, subst, ◌≡◌, ◌≢◌, refl, List, [],
  ◌∷◌, ◌++◌, append-nil,
}
use esgraph.Core.Model.{NormalisedEvent}
use esgraph.Core.Config.{StoreConfig}
use esgraph.Store.Ingester.{Ingester}
use esgraph.Daemon.Writer.{
  Observed, stopping, received, timed_out, disconnected, Writer, Turn, running, left, failed,
  panicked, leave, stamp, and_then, flush_batch, flush_full, flush_due, stop, turn, run,
}
use esgraph.Daemon.Writer.Goes.{turn-ne-left, and_then-stop}
use esgraph.Daemon.Writer.Ledger.{
  events_of, taken, Writes, Writes-refl, Writes-push, Writes-trans, flush_batch-ne-left,
  flush_batch-Writes,
}

module _ {Store Error : Type 0} (ingester : Ingester Store Error) where
  -- Where the loop goes on, or is left, the writer has taken in `events` since `w`.
  abbrev pub WritesTo : Writer Store → Turn Store Error → List NormalisedEvent → Type 0
  WritesTo w (running w') events = Writes ingester w w' events
  WritesTo w (left w') events = Writes ingester w w' events
  WritesTo w (failed e store) events = Unit
  WritesTo w (panicked store) events = Unit

  pub flush_batch-WritesTo : (w : Writer Store) → WritesTo w (flush_batch ingester w) []
  flush_batch-WritesTo w = flushed (flush_batch ingester w) refl
    where
      flushed : (t : Turn Store Error) → flush_batch ingester w ≡ t → WritesTo w t []
      flushed (running w') h = flush_batch-Writes ingester w h
      flushed (left w') h = absurd (flush_batch-ne-left ingester w h)
      flushed (failed e store) h = tt
      flushed (panicked store) h = tt

  stamp-WritesTo :
      (now : ℕ) (w : Writer Store) (es : List NormalisedEvent) (t : Turn Store Error)
      → WritesTo w t es
      → WritesTo w (stamp now t) es
  stamp-WritesTo now w es (running w') h = record {
    batches = h.batches;
    in_order = h.in_order;
    ingests = h.ingests;
    counted = h.counted;
  }
  stamp-WritesTo now w es (left w') h = h
  stamp-WritesTo now w es (failed e store) h = tt
  stamp-WritesTo now w es (panicked store) h = tt

  pub leave-WritesTo :
      (w : Writer Store) (es : List NormalisedEvent) (t : Turn Store Error)
      → WritesTo w t es
      → WritesTo w (leave t) es
  leave-WritesTo w es (running w') h = h
  leave-WritesTo w es (left w') h = h
  leave-WritesTo w es (failed e store) h = tt
  leave-WritesTo w es (panicked store) h = tt

  -- What a writer has taken in, and then a turn from where it stands.
  pub then-WritesTo :
      (u v : Writer Store) (es fs : List NormalisedEvent) (t : Turn Store Error)
      → Writes ingester u v es
      → WritesTo v t fs
      → WritesTo u t (es ++ fs)
  then-WritesTo u v es fs (running w) a b = Writes-trans ingester u v w es fs a b
  then-WritesTo u v es fs (left w) a b = Writes-trans ingester u v w es fs a b
  then-WritesTo u v es fs (failed e store) a b = tt
  then-WritesTo u v es fs (panicked store) a b = tt

  and_then-WritesTo :
      (w : Writer Store) (f : Writer Store → Turn Store Error) (t : Turn Store Error)
      → ((v : Writer Store) → WritesTo v (f v) [])
      → WritesTo w t []
      → WritesTo w (and_then t f) []
  and_then-WritesTo w f (running v) k h = then-WritesTo w v [] [] (f v) h (k v)
  and_then-WritesTo w f (left v) k h = h
  and_then-WritesTo w f (failed e store) k h = tt
  and_then-WritesTo w f (panicked store) k h = tt

  flush_full-WritesTo :
      (config : StoreConfig) (now : ℕ) (w : Writer Store)
      → WritesTo w (flush_full ingester config now w) []
  unfolding flush_full
  flush_full-WritesTo config now w =
      elim (Bool-cases (leb (max config.batch_size 1) (length w.batch))) [
        | inl full ↦
            rw full (stamp-WritesTo now w [] (flush_batch ingester w) (flush_batch-WritesTo w))
        | inr room ↦ rw room (Writes-refl ingester w)
      ]

  flush_due-WritesTo :
      (config : StoreConfig) (elapsed_at now : ℕ) (w : Writer Store)
      → WritesTo w (flush_due ingester config elapsed_at now w) []
  unfolding flush_due
  flush_due-WritesTo config elapsed_at now w =
      elim (Bool-cases (
        not (is_empty w.batch)
        && leb (max config.flush_interval_ms 1) (elapsed_at - w.last_flush))) [
          | inl due ↦
              rw due (stamp-WritesTo now w [] (flush_batch ingester w) (flush_batch-WritesTo w))
          | inr early ↦ rw early (Writes-refl ingester w)
        ]

  -- The drained events join the batch, and the batch is flushed.
  stop-WritesTo :
      (drained : List NormalisedEvent) (w : Writer Store)
      → WritesTo w (stop ingester drained w) drained
  unfolding stop
  stop-WritesTo drained w =
      let w' : Writer Store = record w { batch = w.batch ++ drained } in
      elim (Bool-cases (is_empty w'.batch)) [
        | inl nothing ↦ rw nothing (Writes-push ingester w drained)
        | inr some ↦ rw some (
            subst (WritesTo w (leave (flush_batch ingester w'))) (append-nil drained) (
              then-WritesTo w w' drained [] (leave (flush_batch ingester w'))
                (Writes-push ingester w drained)
                (leave-WritesTo w' [] (flush_batch ingester w') (flush_batch-WritesTo w'))))
      ]

  pub turn-WritesTo :
      (config : StoreConfig) (seen : Observed) (w : Writer Store)
      → WritesTo w (turn ingester config seen w) (events_of seen)
  unfolding turn
  turn-WritesTo config (stopping drained) w = stop-WritesTo drained w
  turn-WritesTo config (received ev now) w =
      let w' : Writer Store = record w { batch = w.batch ++ ev ∷ [] } in
      then-WritesTo w w' (ev ∷ []) [] (flush_full ingester config now w')
        (Writes-push ingester w (ev ∷ [])) (flush_full-WritesTo config now w')
  turn-WritesTo config (timed_out elapsed_at now) w =
      and_then-WritesTo w (flush_full ingester config now)
        (flush_due ingester config elapsed_at now w) (flush_full-WritesTo config now)
        (flush_due-WritesTo config elapsed_at now w)
  turn-WritesTo config disconnected w = Writes-refl ingester w

  carry-WritesTo :
      (w : Writer Store) (es fs : List NormalisedEvent) (t : Turn Store Error)
      (f : Writer Store → Turn Store Error)
      → WritesTo w t es
      → ((v : Writer Store) → t ≢ left v)
      → ((v : Writer Store) → WritesTo v (f v) fs)
      → WritesTo w (and_then t f) (es ++ fs)
  carry-WritesTo w es fs (running v) f h never k = then-WritesTo w v es fs (f v) h (k v)
  carry-WritesTo w es fs (left v) f h never k = absurd (never v refl)
  carry-WritesTo w es fs (failed e store) f h never k = tt
  carry-WritesTo w es fs (panicked store) f h never k = tt

  -- A run accounts for all that its turns take until one ends it.
  pub run-WritesTo :
      (config : StoreConfig) (observed : List Observed) (w : Writer Store)
      → WritesTo w (run ingester config observed w) (taken observed)
  unfolding run turn
  run-WritesTo config [] w = Writes-refl ingester w
  run-WritesTo config (stopping drained ∷ rest) w =
      rw (and_then-stop ingester config drained w (run ingester config rest))
        (stop-WritesTo drained w)
  run-WritesTo config (received ev now ∷ rest) w =
      let seen = received ev now in
      carry-WritesTo w (ev ∷ []) (taken rest) (turn ingester config seen w)
        (run ingester config rest) (turn-WritesTo config seen w)
        (turn-ne-left ingester config seen w tt) (run-WritesTo config rest)
  run-WritesTo config (timed_out elapsed_at now ∷ rest) w =
      let seen = timed_out elapsed_at now in
      carry-WritesTo w [] (taken rest) (turn ingester config seen w) (run ingester config rest)
        (turn-WritesTo config seen w) (turn-ne-left ingester config seen w tt)
        (run-WritesTo config rest)
  run-WritesTo config (disconnected ∷ rest) w = Writes-refl ingester w
