-- ===== src/Daemon/Writer/Goes.antt =====
-- The turns behind which the loop goes on, and those that end it.
use esgraph.Prelude.{ℕ, ◌≡◌, ◌≢◌, refl, List, [], ◌∷◌, ◌++◌, is_empty, Bool-cases, inl, inr, arith}
use esgraph.Core.Model.{NormalisedEvent}
use esgraph.Core.Config.{StoreConfig}
use esgraph.Store.Ingester.{Ingester}
use esgraph.Daemon.Writer.{
  Observed, stopping, received, timed_out, disconnected, Writer, Turn, running, left, failed,
  panicked, leave, and_then, stamp, flush_batch, flush_full, flush_due, stop, turn,
}
use esgraph.Daemon.Writer.Ledger.{flush_batch-ne-left}

-- The loop goes on behind it.
abbrev pub Goes : Observed → Type 0
Goes (stopping drained) = ⊥
Goes (received ev now) = Unit
Goes (timed_out elapsed_at now) = Unit
Goes disconnected = ⊥

module _ {Store Error : Type 0} (ingester : Ingester Store Error) (config : StoreConfig) where
  stamp-ne-left :
      (now : ℕ) (t : Turn Store Error)
      → ((v : Writer Store) → t ≢ left v)
      → (v : Writer Store) → stamp now t ≢ left v
  stamp-ne-left now (running w) never v h = cc
  stamp-ne-left now (left w) never v h = never w refl
  stamp-ne-left now (failed e store) never v h = cc
  stamp-ne-left now (panicked store) never v h = cc

  flush_full-ne-left : (now : ℕ) (w v : Writer Store) → flush_full ingester config now w ≢ left v
  unfolding flush_full
  flush_full-ne-left now w v h =
      ground
        (arith, stamp-ne-left now (flush_batch ingester w) (λ u. flush_batch-ne-left ingester w) v)

  flush_due-ne-left :
      (elapsed_at now : ℕ) (w v : Writer Store)
      → flush_due ingester config elapsed_at now w ≢ left v
  unfolding flush_due
  flush_due-ne-left elapsed_at now w v h =
      ground
        (arith, stamp-ne-left now (flush_batch ingester w) (λ u. flush_batch-ne-left ingester w) v)

  and_then-ne-left :
      (t : Turn Store Error) (f : Writer Store → Turn Store Error)
      → ((v : Writer Store) → t ≢ left v)
      → ((u v : Writer Store) → f u ≢ left v)
      → (v : Writer Store) → and_then t f ≢ left v
  and_then-ne-left (running w) f k l v h = l w v h
  and_then-ne-left (left w) f k l v h = k w refl
  and_then-ne-left (failed e store) f k l v h = cc
  and_then-ne-left (panicked store) f k l v h = cc

  pub turn-ne-left :
      (seen : Observed) (w : Writer Store)
      → Goes seen
      → (v : Writer Store) → turn ingester config seen w ≢ left v
  unfolding turn
  turn-ne-left (stopping drained) w g v h = g
  turn-ne-left (received ev now) w g v h =
      flush_full-ne-left now (record w { batch = w.batch ++ ev ∷ [] }) v h
  turn-ne-left (timed_out elapsed_at now) w g v h =
      and_then-ne-left (flush_due ingester config elapsed_at now w) (flush_full ingester config now)
        (flush_due-ne-left elapsed_at now w) (flush_full-ne-left now) v h
  turn-ne-left disconnected w g v h = g

  and_then-leave :
      (t : Turn Store Error) (f : Writer Store → Turn Store Error) → and_then (leave t) f ≡ leave t
  and_then-leave (running w) f = refl
  and_then-leave (left w) f = refl
  and_then-leave (failed e store) f = refl
  and_then-leave (panicked store) f = refl

  -- Nothing of the loop comes behind a turn that sees the flag.
  pub and_then-stop :
      (drained : List NormalisedEvent) (w : Writer Store) (f : Writer Store → Turn Store Error)
      → and_then (stop ingester drained w) f ≡ stop ingester drained w
  unfolding stop
  and_then-stop drained w f =
      let w' : Writer Store = record w { batch = w.batch ++ drained } in
      elim (Bool-cases (is_empty w'.batch)) [
        | inl nothing ↦ rw nothing refl
        | inr some ↦ rw some (and_then-leave (flush_batch ingester w') f)
      ]
