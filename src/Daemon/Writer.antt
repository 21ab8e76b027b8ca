-- ===== src/Daemon/Writer.antt =====
-- crates/esgraphd/src/writer.rs: the writer thread. A turn of its loop is a function of what the
-- turn sees of the world outside: the shutdown flag, the channel and the clock, which other threads
-- and the system change between any two turns. A run is a list of such observations. The clock is
-- in milliseconds since some instant.
pub mod Ledger
pub mod Goes
pub mod Takes
pub mod Batches
pub mod Ends
pub mod Live
pub mod Complete
use Prim.Native.Nat.{max}
use esgraph.Prelude.{
  ℕ, ◌-◌, Bool, true, false, not, ◌&&◌, List, [], ◌∷◌, ◌++◌, leb, if◌then◌else◌, is_empty, length,
  Outcome, ok, err, panic,
}
use esgraph.Core.Model.{NormalisedEvent}
use esgraph.Core.Config.{StoreConfig}
use esgraph.Store.Batch.{IngestStats, no_stats}
use esgraph.Store.Batch.Counts.{add_stats}
use esgraph.Store.Ingester.{Ingester}

-- What one turn of the loop sees: the flag is set, and `try_recv` gives these events before the
-- channel is empty; or it is not, and `recv_timeout` gives an event, times out, or finds all senders
-- gone. `elapsed_at` and `now` are the readings of the clock by `elapsed` and `Instant::now`.
pub data Observed : Type 0 where
  stopping : List NormalisedEvent → Observed
  received : NormalisedEvent → ℕ → Observed
  timed_out : ℕ → ℕ → Observed
  disconnected : Observed

-- The local variables of `writer_loop`, with the store.
pub record Writer (Store : Type 0) : Type 0 where
  pub store : Store
  pub batch : List NormalisedEvent
  pub total : IngestStats
  pub last_flush : ℕ

-- How a turn ends: the loop goes on, it is left by `break`, or the thread ends with an error of the
-- store or by a panic in it.
pub data Turn (Store Error : Type 0) : Type 0 where
  running : Writer Store → Turn Store Error
  left : Writer Store → Turn Store Error
  failed : Error → Store → Turn Store Error
  panicked : Store → Turn Store Error

module _ {Store Error : Type 0} where
  abbrev pub goes_on : Turn Store Error → Bool
  goes_on (running w) = true
  goes_on _ = false

  -- `break` behind a flush.
  abbrev pub leave : Turn Store Error → Turn Store Error
  leave (running w) = left w
  leave t = t

  -- `last_flush = Instant::now()` behind a flush.
  abbrev pub stamp : ℕ → Turn Store Error → Turn Store Error
  stamp now (running w) = running (record w { last_flush = now })
  stamp now t = t

  abbrev pub and_then : Turn Store Error → (Writer Store → Turn Store Error) → Turn Store Error
  and_then (running w) f = f w
  and_then t f = t

module _ {Store Error : Type 0} (ingester : Ingester Store Error) where
  -- `flush_batch`
  unfoldable pub flush_batch : Writer Store → Turn Store Error
  flush_batch w =
      let (answer, store) = ingester.ingest w.batch w.store in
      elim answer [
        | ok stats ↦
            running (record w { store = store; total = add_stats w.total stats; batch = [] })
        | err e ↦ failed e store
        | panic ↦ panicked store
      ]

  -- The test at the end of a turn.
  unfoldable pub flush_full : StoreConfig → ℕ → Writer Store → Turn Store Error
  unfolding flush_batch
  flush_full config now w =
      if leb (max config.batch_size 1) (length w.batch)
      then stamp now (flush_batch w)
      else running w

  -- The arm of the match for a timeout.
  unfoldable pub flush_due : StoreConfig → ℕ → ℕ → Writer Store → Turn Store Error
  unfolding flush_batch
  flush_due config elapsed_at now w =
      if not (is_empty w.batch) && leb (max config.flush_interval_ms 1) (elapsed_at - w.last_flush)
      then stamp now (flush_batch w)
      else running w

  -- The block under `if shutdown.load(…)`.
  unfoldable pub stop : List NormalisedEvent → Writer Store → Turn Store Error
  unfolding flush_batch
  stop drained w =
      let w' : Writer Store = record w { batch = w.batch ++ drained } in
      if is_empty w'.batch then left w' else leave (flush_batch w')

  -- One turn of the loop.
  unfoldable pub turn : StoreConfig → Observed → Writer Store → Turn Store Error
  unfolding flush_full flush_due stop
  turn config (stopping drained) w = stop drained w
  turn config (received ev now) w = flush_full config now (record w { batch = w.batch ++ ev ∷ [] })
  turn config (timed_out elapsed_at now) w =
      and_then (flush_due config elapsed_at now w) (flush_full config now)
  turn config disconnected w = left w

  -- The loop over what its turns see; `running` where the list ends first.
  unfoldable pub run : StoreConfig → List Observed → Writer Store → Turn Store Error
  run config [] w = running w
  run config (seen ∷ rest) w = and_then (turn config seen w) (run config rest)

  -- What stands behind the loop.
  unfoldable pub finish : Turn Store Error → Turn Store Error
  unfolding flush_batch
  finish (left w) = if is_empty w.batch then left w else leave (flush_batch w)
  finish (running w) = running w
  finish (failed e store) = failed e store
  finish (panicked store) = panicked store

  abbrev pub started : Store → ℕ → Writer Store
  started store now = record { store = store; batch = []; total = no_stats; last_flush = now }

  -- `writer_loop` on a store that is open, from the time at which it starts.
  unfoldable pub writer_loop : StoreConfig → List Observed → Store → ℕ → Turn Store Error
  unfolding run finish turn
  writer_loop config observed store now = finish (run config observed (started store now))
