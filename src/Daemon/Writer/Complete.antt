-- ===== src/Daemon/Writer/Complete.antt =====
-- A writer that takes everything there is to take: its last observation is the first that ends it.
use esgraph.Prelude.{ℕ, ◌≡◌, ◌≢◌, refl, List, [], ◌∷◌, ◌++◌, append-nil, All}
use esgraph.Core.Model.{NormalisedEvent}
use esgraph.Core.Config.{StoreConfig}
use esgraph.Store.Ingester.{Ingester}
use esgraph.Daemon.Writer.{
  Observed, Writer, Turn, running, left, failed, panicked, and_then, turn, run, started,
  writer_loop,
}
use esgraph.Daemon.Writer.Ledger.{events_of, all_events}
use esgraph.Daemon.Writer.Goes.{Goes, turn-ne-left}
use esgraph.Daemon.Writer.Takes.{WritesTo, then-WritesTo, turn-WritesTo}
use esgraph.Daemon.Writer.Batches.{Ingested, finish-Ingested}

module _ {Store Error : Type 0} (ingester : Ingester Store Error) (config : StoreConfig) where
  last_turn-WritesTo :
      (w : Writer Store) (es : List NormalisedEvent) (t : Turn Store Error)
      → WritesTo ingester w t es
      → WritesTo ingester w (and_then t (run ingester config [])) (es ++ [])
  unfolding run
  last_turn-WritesTo w es (running v) h = rw append-nil h
  last_turn-WritesTo w es (left v) h = rw append-nil h
  last_turn-WritesTo w es (failed e store) h = tt
  last_turn-WritesTo w es (panicked store) h = tt

  -- Every turn of such a run is accounted for.
  run-WritesTo_whole :
      (before : List Observed) (last : Observed) (w : Writer Store)
      → All Goes before
      → WritesTo ingester w
          (run ingester config (before ++ last ∷ []) w)
          (all_events (before ++ last ∷ []))
  unfolding run
  run-WritesTo_whole [] last w g =
      last_turn-WritesTo w (events_of last) (turn ingester config last w)
        (turn-WritesTo ingester config last w)
  run-WritesTo_whole (seen ∷ rest) last w g =
      went (turn ingester config seen w) (turn-WritesTo ingester config seen w)
        (turn-ne-left ingester config seen w g.0) (λ v. run-WritesTo_whole rest last v g.1)
    where
      went :
          (t : Turn Store Error)
          → WritesTo ingester w t (events_of seen)
          → ((v : Writer Store) → t ≢ left v)
          → ((v : Writer Store)
              → WritesTo ingester v
                  (run ingester config (rest ++ last ∷ []) v)
                  (all_events (rest ++ last ∷ [])))
          → WritesTo ingester w
              (and_then t (run ingester config (rest ++ last ∷ [])))
              (events_of seen ++ all_events (rest ++ last ∷ []))
      went (running v) h never ih =
          then-WritesTo ingester w v (events_of seen) (all_events (rest ++ last ∷ []))
            (run ingester config (rest ++ last ∷ []) v) h (ih v)
      went (left v) h never ih = absurd (never v refl)
      went (failed e store) h never ih = tt
      went (panicked store) h never ih = tt

  -- A writer that returns, and of whose turns only the last could have ended it, has ingested the
  -- events of all its turns, once and in order, and returns their counts.
  pub writer_loop-Ingested :
      (before : List Observed) (last : Observed) (store : Store) (now : ℕ) {w : Writer Store}
      → All Goes before
      → writer_loop ingester config (before ++ last ∷ []) store now ≡ left w
      → Ingested ingester (all_events (before ++ last ∷ [])) store w
  unfolding writer_loop
  writer_loop-Ingested before last store now g h =
      finish-Ingested ingester (all_events (before ++ last ∷ [])) store now
        (run ingester config (before ++ last ∷ []) (started ingester store now))
        (run-WritesTo_whole before last (started ingester store now) g) h
