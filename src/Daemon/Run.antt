-- ===== src/Daemon/Run.antt =====
-- crates/esgraphd/src/main.rs, `cmd_run`: the collector, the channel and the writer together. A step
-- is an action of one thread that the others can see. The collector's part (collector.rs) is that it
-- subscribes or fails before, `tx.send` in its handler, and the end of its loop; the writer's part is
-- a turn of its own loop and its return. A turn first reads the shutdown flag; where it is not set,
-- the turn waits for the channel, and the flag may be set meanwhile. A store that cannot be opened
-- ends the writer before its loop, which Daemon/Commands has.
pub mod Conserves
pub mod Bounded
pub mod Stops
pub mod Sound
pub mod Stored
pub mod Ends
use Prim.Native.Nat.{max}
use esgraph.Prelude.{ℕ, ◌<◌, Bool, true, false, List, [], ◌∷◌, ◌++◌, length, ◌≡◌}
use esgraph.Core.Model.{NormalisedEvent}
use esgraph.Core.Config.{StoreConfig}
use esgraph.Store.Ingester.{Ingester}
use esgraph.Daemon.Writer.{
  Observed, stopping, received, timed_out, disconnected, Writer, Turn, running, finish, turn,
  started, goes_on,
}

-- `config.store.batch_size.max(64)`
unfoldable pub channel_capacity : StoreConfig → ℕ
channel_capacity config = max config.batch_size 64

-- `run_collector` has not subscribed yet, or its loop waits for the flag, or it has returned.
pub data Collecting : Type 0 where
  setting_up : Collecting
  subscribed : Collecting
  gone : Collecting

-- Where a writer whose loop goes on stands: between two turns, or in `recv_timeout`, where it has read
-- the flag as not set, or in the loop over `try_recv`, where it has read it as set and has taken
-- these events.
pub data Phase : Type 0 where
  between : Phase
  waiting : Phase
  draining : List NormalisedEvent → Phase

-- The events that the writer has taken in a turn that is not over.
abbrev pub held : Phase → List NormalisedEvent
held between = []
held waiting = []
held (draining es) = es

-- `receiving`: the writer thread has not returned, so that the receiver is there. `sent` is the history of all the events that the channel has taken, `dropped` those of them that were in it when
-- the receiver went away, and `refused` those that `send` gave back then.
pub record System (Store Error : Type 0) : Type 0 where
  pub channel : List NormalisedEvent
  pub shutdown : Bool
  pub collector : Collecting
  pub phase : Phase
  pub receiving : Bool
  pub writer : Turn Store Error
  pub sent : List NormalisedEvent
  pub dropped : List NormalisedEvent
  pub refused : List NormalisedEvent

module _ {Store Error : Type 0} (ingester : Ingester Store Error) (config : StoreConfig) where
  -- What a turn that sees `seen` makes of the system, when it leaves `rest` in the channel.
  abbrev pub after_turn :
      System Store Error → Observed → List NormalisedEvent → Writer Store → System Store Error
  after_turn s seen rest w = record s {
    channel = rest;
    phase = between;
    writer = turn ingester config seen w;
  }

  -- What the return of the writer makes of it: the rest of `writer_loop`, and the receiver is dropped
  -- with what is in the channel.
  abbrev pub after_return : System Store Error → System Store Error
  after_return s = record s {
    channel = [];
    receiving = false;
    writer = finish ingester s.writer;
    dropped = s.channel;
  }

  -- `subscribe` and `give_up`: the collector gets to its loop, or fails before. `send`: the channel
  -- takes an event, which it does when it is not full. `refuse`: `send` fails since the receiver is
  -- gone. `interrupt`: the handler of Ctrl+C sets the flag. `close`: the collector sees the flag and
  -- drops its sender. The others are the writer's: it reads the flag. Where it is set, it takes one event
  -- after the other until the channel is empty, while the collector may go on sending, and ends the
  -- turn. Where it is not, it waits, and receives an event, or waits in vain, or finds the sender
  -- gone. And it returns.
  pub data Step (s : System Store Error) : System Store Error → Type 0 where
    subscribe : s.collector ≡ setting_up → Step s (record s { collector = subscribed })
    give_up : s.collector ≡ setting_up → Step s (record s { collector = gone })
    send :
        (ev : NormalisedEvent)
        → s.collector ≡ subscribed
        → s.receiving ≡ true
        → length s.channel < channel_capacity config
        → Step s (record s { channel = s.channel ++ ev ∷ []; sent = s.sent ++ ev ∷ [] })
    refuse :
        (ev : NormalisedEvent)
        → s.collector ≡ subscribed
        → s.receiving ≡ false
        → Step s (record s { refused = s.refused ++ ev ∷ [] })
    interrupt : Step s (record s { shutdown = true })
    close : s.collector ≡ subscribed → s.shutdown ≡ true → Step s (record s { collector = gone })
    look :
        {w : Writer Store}
        → s.writer ≡ running w
        → s.phase ≡ between
        → s.shutdown ≡ false
        → Step s (record s { phase = waiting })
    see_flag :
        {w : Writer Store}
        → s.writer ≡ running w
        → s.phase ≡ between
        → s.shutdown ≡ true
        → Step s (record s { phase = draining [] })
    take :
        {w : Writer Store} {es : List NormalisedEvent} {ev : NormalisedEvent}
        {rest : List NormalisedEvent}
        → s.writer ≡ running w
        → s.phase ≡ draining es
        → s.channel ≡ ev ∷ rest
        → Step s (record s { channel = rest; phase = draining (es ++ ev ∷ []) })
    drain :
        {w : Writer Store} {es : List NormalisedEvent}
        → s.writer ≡ running w
        → s.phase ≡ draining es
        → s.channel ≡ []
        → Step s (after_turn s (stopping es) [] w)
    receive :
        (now : ℕ) {w : Writer Store} {ev : NormalisedEvent} {rest : List NormalisedEvent}
        → s.writer ≡ running w
        → s.phase ≡ waiting
        → s.channel ≡ ev ∷ rest
        → Step s (after_turn s (received ev now) rest w)
    time_out :
        (elapsed_at now : ℕ) {w : Writer Store}
        → s.writer ≡ running w
        → s.phase ≡ waiting
        → s.channel ≡ []
        → Step s (after_turn s (timed_out elapsed_at now) [] w)
    disconnect :
        {w : Writer Store}
        → s.writer ≡ running w
        → s.phase ≡ waiting
        → s.channel ≡ []
        → s.collector ≡ gone
        → Step s (after_turn s disconnected [] w)
    hand_back : goes_on s.writer ≡ false → s.receiving ≡ true → Step s (after_return s)

  -- The system when both threads have been started and the store is open.
  abbrev pub launched : Store → ℕ → System Store Error
  launched store now = record {
    channel = [];
    shutdown = false;
    collector = setting_up;
    phase = between;
    receiving = true;
    writer = running (started ingester store now);
    sent = [];
    dropped = [];
    refused = [];
  }

  -- A run of the system.
  infixl 5 ◌▷◌
  pub data Steps (s : System Store Error) : System Store Error → Type 0 where
    here : Steps s s
    ◌▷◌ : {t u : System Store Error} → Steps s t → Step t u → Steps s u

  -- The systems that are reached from the start.
  abbrev pub Reach : Store → ℕ → System Store Error → Type 0
  Reach store now s = Steps (launched store now) s
