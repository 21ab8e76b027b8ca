-- ===== src/Daemon/Writer/Ends.antt =====
-- When the loop ends, and how many events it holds back.
use Prim.Native.Nat.{max}
use esgraph.Prelude.{
  ℕ, ◌-◌, ◌<◌, ◌≡◌, ◌≢◌, refl, ap, false, not, ◌&&◌, Bool-cases, inl, inr, leb, length, is_empty,
  List, [], ◌∷◌, ◌++◌, arith,
}
use esgraph.Core.Model.{NormalisedEvent}
use esgraph.Core.Config.{StoreConfig}
use esgraph.Store.Ingester.{Ingester}
use esgraph.Daemon.Writer.Batches.{flush_batch-empty}
use esgraph.Daemon.Writer.{
  Observed, stopping, received, timed_out, disconnected, Writer, Turn, running, left, failed,
  panicked, leave, stamp, and_then, flush_batch, flush_full, flush_due, stop, goes_on, turn, run,
  finish,
}

-- The turn is one that ends the loop: the shutdown flag is set, or all senders are gone.
abbrev pub IsLast : Observed → Type 0
IsLast (stopping drained) = Unit
IsLast (received ev now) = ⊥
IsLast (timed_out elapsed_at now) = ⊥
IsLast disconnected = Unit

module _ {Store Error : Type 0} (ingester : Ingester Store Error) (config : StoreConfig) where
  -- Fewer events are pending than fill a batch.
  abbrev pub HasRoom : Turn Store Error → Type 0
  HasRoom (running w) = length w.batch < max config.batch_size 1
  HasRoom _ = Unit

  flush_batch-HasRoom : (now : ℕ) (w : Writer Store) → HasRoom (stamp now (flush_batch ingester w))
  unfolding flush_batch
  flush_batch-HasRoom now w = flushed (flush_batch ingester w) refl
    where
      flushed : (t : Turn Store Error) → flush_batch ingester w ≡ t → HasRoom (stamp now t)
      flushed (running w') h = omega (arith, ap length (flush_batch-empty ingester w h))
      flushed (left w') h = tt
      flushed (failed e store) h = tt
      flushed (panicked store) h = tt

  flush_full-HasRoom : (now : ℕ) (w : Writer Store) → HasRoom (flush_full ingester config now w)
  unfolding flush_full
  flush_full-HasRoom now w = elim (Bool-cases (leb (max config.batch_size 1) (length w.batch))) [
    | inl full ↦ rw full (flush_batch-HasRoom now w)
    | inr room ↦ rw room (ground arith)
  ]

  and_then-HasRoom :
      (t : Turn Store Error) (f : Writer Store → Turn Store Error)
      → ((v : Writer Store) → HasRoom (running v) → HasRoom (f v))
      → HasRoom t
      → HasRoom (and_then t f)
  and_then-HasRoom (running v) f h room = h v room
  and_then-HasRoom (left v) f h room = tt
  and_then-HasRoom (failed e store) f h room = tt
  and_then-HasRoom (panicked store) f h room = tt

  leave-HasRoom : (t : Turn Store Error) → HasRoom (leave t)
  leave-HasRoom (running v) = tt
  leave-HasRoom (left v) = tt
  leave-HasRoom (failed e store) = tt
  leave-HasRoom (panicked store) = tt

  stop-HasRoom :
      (drained : List NormalisedEvent) (w : Writer Store) → HasRoom (stop ingester drained w)
  unfolding stop
  stop-HasRoom drained w = elim (Bool-cases (is_empty (w.batch ++ drained))) [
    | inl nothing ↦ rw nothing tt
    | inr some ↦
        rw some (leave-HasRoom (flush_batch ingester (record w { batch = w.batch ++ drained })))
  ]

  leave-goes_on : (t : Turn Store Error) → goes_on (leave t) ≡ false
  leave-goes_on t = ground arith

  -- The turn that sees the flag ends the loop.
  pub stop-goes_on :
      (drained : List NormalisedEvent) (w : Writer Store)
      → goes_on (stop ingester drained w) ≡ false
  unfolding stop
  stop-goes_on drained w = elim (Bool-cases (is_empty (w.batch ++ drained))) [
    | inl nothing ↦ rw nothing refl
    | inr some ↦
        rw some (leave-goes_on (flush_batch ingester (record w { batch = w.batch ++ drained })))
  ]

  -- Behind the loop there is no way back into it.
  pub finish-goes_on :
      (t : Turn Store Error) → goes_on t ≡ false → goes_on (finish ingester t) ≡ false
  unfolding finish
  finish-goes_on (running w) h = h
  finish-goes_on (left w) h = elim (Bool-cases (is_empty w.batch)) [
    | inl nothing ↦ rw nothing refl
    | inr some ↦ rw some (leave-goes_on (flush_batch ingester w))
  ]
  finish-goes_on (failed e store) h = h
  finish-goes_on (panicked store) h = h

  pub finish-HasRoom : (t : Turn Store Error) → HasRoom t → HasRoom (finish ingester t)
  unfolding finish
  finish-HasRoom (running w) room = room
  finish-HasRoom (left w) room = elim (Bool-cases (is_empty w.batch)) [
    | inl nothing ↦ rw nothing tt
    | inr some ↦ rw some (leave-HasRoom (flush_batch ingester w))
  ]
  finish-HasRoom (failed e store) room = tt
  finish-HasRoom (panicked store) room = tt

  flush_due-HasRoom :
      (elapsed_at now : ℕ) (w : Writer Store)
      → HasRoom (running w)
      → HasRoom (flush_due ingester config elapsed_at now w)
  unfolding flush_due
  flush_due-HasRoom elapsed_at now w h =
      elim (Bool-cases (
        not (is_empty w.batch)
        && leb (max config.flush_interval_ms 1) (elapsed_at - w.last_flush))) [
          | inl due ↦ rw due (flush_batch-HasRoom now w)
          | inr early ↦ rw early h
        ]

  pub turn-HasRoom :
      (seen : Observed) (w : Writer Store)
      → HasRoom (running w)
      → HasRoom (turn ingester config seen w)
  unfolding turn
  turn-HasRoom (stopping drained) w h = stop-HasRoom drained w
  turn-HasRoom (received ev now) w h =
      flush_full-HasRoom now (record w { batch = w.batch ++ ev ∷ [] })
  turn-HasRoom (timed_out elapsed_at now) w h =
      and_then-HasRoom (flush_due ingester config elapsed_at now w) (flush_full ingester config now)
        (λ v _. flush_full-HasRoom now v) (flush_due-HasRoom elapsed_at now w h)
  turn-HasRoom disconnected w h = tt

  turn-ends :
      (seen : Observed) (w w' : Writer Store)
      → IsLast seen
      → turn ingester config seen w ≢ running w'
  unfolding turn
  turn-ends (stopping drained) w w' h e = let over = stop-goes_on drained w in absurd (cc)
  turn-ends (received ev now) w w' h e = elim h [ ]
  turn-ends (timed_out elapsed_at now) w w' h e = elim h [ ]
  turn-ends disconnected w w' h e = cc

  and_then-eq-running :
      (t : Turn Store Error) (f : Writer Store → Turn Store Error) {w' : Writer Store}
      → and_then t f ≡ running w'
      → (v : Writer Store) × (t ≡ running v) × (f v ≡ running w')
  and_then-eq-running (running v) f h = (v, refl, h)
  and_then-eq-running (left v) f h = cc
  and_then-eq-running (failed e store) f h = cc
  and_then-eq-running (panicked store) f h = cc

  run-cons :
      (seen : Observed) (rest : List Observed) (w : Writer Store) {w' : Writer Store}
      → run ingester config (seen ∷ rest) w ≡ running w'
      → (v : Writer Store) × (turn ingester config seen w ≡ running v)
        × (run ingester config rest v ≡ running w')
  unfolding run
  run-cons seen rest w h =
      and_then-eq-running (turn ingester config seen w) (run ingester config rest) h

  -- A run that starts with fewer pending events than fill a batch has, as long as it goes on, fewer
  -- pending events than fill a batch, whatever its turns see.
  pub run-HasRoom :
      (observed : List Observed) (w : Writer Store)
      → HasRoom (running w)
      → HasRoom (run ingester config observed w)
  unfolding run
  run-HasRoom [] w h = h
  run-HasRoom (seen ∷ rest) w h =
      and_then-HasRoom (turn ingester config seen w) (run ingester config rest) (run-HasRoom rest)
        (turn-HasRoom seen w h)

  -- A run in which a turn sees the shutdown flag or the end of the channel comes to an end, in that
  -- turn at the latest.
  pub run_ends :
      (before : List Observed) (last : Observed) (after : List Observed) (w w' : Writer Store)
      → IsLast last
      → run ingester config (before ++ last ∷ after) w ≢ running w'
  run_ends [] last after w w' h e =
      let (v, went, more) = run-cons last after w e in turn-ends last w v h went
  run_ends (seen ∷ before) last after w w' h e =
      let (v, went, more) = run-cons seen (before ++ last ∷ after) w e in
      run_ends before last after v w' h more
