-- ===== src/Daemon/Run/Bounded.antt =====
-- How much the channel and the batch hold back.
use esgraph.Prelude.{ℕ, ◌≤◌, ap, subst, [], ◌∷◌, length, length-append, arith}
use esgraph.Core.Config.{StoreConfig}
use esgraph.Store.Ingester.{Ingester}
use esgraph.Daemon.Writer.{stopping, received, timed_out, disconnected}
use esgraph.Daemon.Writer.Ends.{HasRoom, turn-HasRoom, finish-HasRoom}
use esgraph.Daemon.Run.{
  System, Step, subscribe, give_up, send, refuse, interrupt, close, look, see_flag, take, drain,
  receive, time_out, disconnect, hand_back, channel_capacity, Reach, here, ◌▷◌,
}

module _ {Store Error : Type 0} (ingester : Ingester Store Error) (config : StoreConfig) where
  -- The channel holds no more than its capacity, and the writer, while its loop goes on, less than a
  -- batch.
  pub record IsBounded (s : System Store Error) : Type 0 where
    pub channel : length s.channel ≤ channel_capacity config
    pub batch : HasRoom ingester config s.writer

  Step-IsBounded :
      (s : System Store Error) {t : System Store Error}
      → Step ingester config s t
      → IsBounded s
      → IsBounded t
  Step-IsBounded s (send ev subs there room) c = record {
    channel = omega (arith, room, length-append s.channel (ev ∷ []));
    batch = c.batch;
  }
  Step-IsBounded s (subscribe setting) c = record { channel = c.channel; batch = c.batch }
  Step-IsBounded s (give_up setting) c = record { channel = c.channel; batch = c.batch }
  Step-IsBounded s (refuse ev subs left_alone) c = record { channel = c.channel; batch = c.batch }
  Step-IsBounded s interrupt c = record { channel = c.channel; batch = c.batch }
  Step-IsBounded s (close subs flag) c = record { channel = c.channel; batch = c.batch }
  Step-IsBounded s (hand_back ended there) c = record {
    channel = omega arith;
    batch = finish-HasRoom ingester config s.writer c.batch;
  }
  Step-IsBounded s (look runs idle unset) c = record { channel = c.channel; batch = c.batch }
  Step-IsBounded s (see_flag runs idle flag) c = record { channel = c.channel; batch = c.batch }
  Step-IsBounded s (take runs drains holds) c = record {
    channel = omega (arith, c.channel, ap length holds);
    batch = c.batch;
  }
  Step-IsBounded s (drain {w} {es} runs drains holds) c = record {
    channel = omega arith;
    batch =
        turn-HasRoom ingester config (stopping es) w (subst (HasRoom ingester config) runs c.batch);
  }
  Step-IsBounded s (receive at {w} {ev} {rest} runs waits holds) c = record {
    channel = omega (arith, c.channel, ap length holds);
    batch =
        turn-HasRoom ingester config (received ev at) w
          (subst (HasRoom ingester config) runs c.batch);
  }
  Step-IsBounded s (time_out elapsed_at at {w} runs waits holds) c = record {
    channel = omega arith;
    batch =
        turn-HasRoom ingester config (timed_out elapsed_at at) w
          (subst (HasRoom ingester config) runs c.batch);
  }
  Step-IsBounded s (disconnect {w} runs waits holds closed) c = record {
    channel = omega arith;
    batch =
        turn-HasRoom ingester config disconnected w (subst (HasRoom ingester config) runs c.batch);
  }

  -- In every state that the threads reach, the channel holds at most as many events as its capacity,
  -- and a writer whose loop goes on has fewer pending events than fill a batch.
  pub Reach-IsBounded :
      (store : Store) (now : ℕ) {s : System Store Error}
      → Reach ingester config store now s
      → IsBounded s
  Reach-IsBounded store now here = record { channel = omega arith; batch = omega arith }
  Reach-IsBounded store now (◌▷◌ {t} r step) = Step-IsBounded t step (Reach-IsBounded store now r)
