-- ===== src/Daemon/Run/Sound.antt =====
-- With a store that takes the events that are sent, the writer does not fail.
use esgraph.Prelude.{ℕ, ◌≡◌, refl, subst, List, [], ◌∷◌, ◌++◌, All, All-append, All-split, ok}
use esgraph.Core.Model.{NormalisedEvent}
use esgraph.Core.Config.{StoreConfig}
use esgraph.Store.Batch.{IngestStats}
use esgraph.Store.Ingester.{Ingester}
use esgraph.Daemon.Writer.{Observed, stopping, received, timed_out, disconnected, Writer, running}
use esgraph.Daemon.Writer.Ledger.{events_of}
use esgraph.Daemon.Writer.Live.{Lives, turn-Lives, finish-Lives}
use esgraph.Daemon.Run.{
  System, Step, subscribe, give_up, send, refuse, interrupt, close, look, see_flag, take, drain,
  held, receive, time_out, disconnect, hand_back, after_turn, Reach, here, ◌▷◌,
}

module _ {Store Error : Type 0} (ingester : Ingester Store Error) (P : NormalisedEvent → Type 0)
    (takes : (events : List NormalisedEvent)
      → All P events
      → (s : Store) → (stats : IngestStats) × ((ingester.ingest events s).0 ≡ ok stats))
    (config : StoreConfig) where
  -- The writer has not failed, and what it and the channel hold has the property.
  pub record IsSound (s : System Store Error) : Type 0 where
    pub channel : All P s.channel
    pub holds : All P (held s.phase)
    pub writer : Lives P s.writer

  after_turn-IsSound :
      (s : System Store Error) (seen : Observed) (rest : List NormalisedEvent) {w : Writer Store}
      → s.writer ≡ running w
      → held s.phase ++ s.channel ≡ events_of seen ++ rest
      → IsSound s
      → IsSound (after_turn ingester config s seen rest w)
  after_turn-IsSound s seen rest {w} runs split c =
      let (taken, kept) =
        All-split P (events_of seen) rest
          (subst (All P) split (All-append P (held s.phase) s.channel c.holds c.channel)) in
      record {
        channel = kept;
        holds = tt;
        writer = turn-Lives ingester P takes config seen w taken (subst (Lives P) runs c.writer);
      }

  Step-IsSound :
      (s : System Store Error) {t : System Store Error}
      → Step ingester config s t
      → All P t.sent
      → IsSound s
      → IsSound t
  Step-IsSound s (subscribe setting) fit c = record {
    channel = c.channel;
    holds = c.holds;
    writer = c.writer;
  }
  Step-IsSound s (give_up setting) fit c = record {
    channel = c.channel;
    holds = c.holds;
    writer = c.writer;
  }
  Step-IsSound s (send ev subs there room) fit c = record {
    channel = All-append P s.channel (ev ∷ []) c.channel (All-split P s.sent (ev ∷ []) fit).1;
    holds = c.holds;
    writer = c.writer;
  }
  Step-IsSound s (refuse ev subs away) fit c = record {
    channel = c.channel;
    holds = c.holds;
    writer = c.writer;
  }
  Step-IsSound s interrupt fit c = record {
    channel = c.channel;
    holds = c.holds;
    writer = c.writer;
  }
  Step-IsSound s (close subs flag) fit c = record {
    channel = c.channel;
    holds = c.holds;
    writer = c.writer;
  }
  Step-IsSound s (look runs idle unset) fit c = record {
    channel = c.channel;
    holds = tt;
    writer = c.writer;
  }
  Step-IsSound s (see_flag runs idle flag) fit c = record {
    channel = c.channel;
    holds = tt;
    writer = c.writer;
  }
  Step-IsSound s (take {w} {es} {ev} {rest} runs drains holds) fit c =
      let both = subst (All P) holds c.channel in
      record {
        channel = both.1;
        holds = All-append P es (ev ∷ []) (rw drains at c.holds) (both.0, tt);
        writer = c.writer;
      }
  Step-IsSound s (drain {w} {es} runs drains holds) fit c =
      after_turn-IsSound s (stopping es) [] runs (rw (drains, holds) refl) c
  Step-IsSound s (receive at {ev} {rest} runs waits holds) fit c =
      after_turn-IsSound s (received ev at) rest runs (rw (waits, holds) refl) c
  Step-IsSound s (time_out elapsed_at at runs waits holds) fit c =
      after_turn-IsSound s (timed_out elapsed_at at) [] runs (rw (waits, holds) refl) c
  Step-IsSound s (disconnect runs waits holds away) fit c =
      after_turn-IsSound s disconnected [] runs (rw (waits, holds) refl) c
  Step-IsSound s (hand_back ended there) fit c = record {
    channel = tt;
    holds = c.holds;
    writer = finish-Lives ingester P takes config s.writer c.writer;
  }

  -- What was sent before a step is among what was sent behind it.
  Step-sent :
      (s : System Store Error) {t : System Store Error}
      → Step ingester config s t
      → All P t.sent
      → All P s.sent
  Step-sent s (send ev subs there room) fit = (All-split P s.sent (ev ∷ []) fit).0
  Step-sent s _ fit = fit

  pub Reach-IsSound :
      (store : Store) (now : ℕ) {s : System Store Error}
      → Reach ingester config store now s
      → All P s.sent
      → IsSound s
  Reach-IsSound store now here fit = record { channel = tt; holds = tt; writer = tt }
  Reach-IsSound store now (◌▷◌ {t} r step) fit =
      Step-IsSound t step fit (Reach-IsSound store now r (Step-sent t step fit))
