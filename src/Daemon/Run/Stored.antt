-- ===== src/Daemon/Run/Stored.antt =====
-- With a store that takes the events, all that were sent are stored in the end.
use esgraph.Prelude.{
  ℕ, ◌≡◌, ◌≢◌, refl, false, sym, subst, ◌∙◌, false, List, [], ◌∷◌, ◌++◌, append-nil, All, ok,
}
use esgraph.Core.Model.{NormalisedEvent}
use esgraph.Core.Config.{StoreConfig}
use esgraph.Store.Batch.{IngestStats}
use esgraph.Store.Ingester.{Ingester}
use esgraph.Daemon.Writer.{
  Observed, received, timed_out, Writer, Turn, running, left, failed, panicked, goes_on, started,
  turn,
}
use esgraph.Daemon.Writer.Takes.{WritesTo}
use esgraph.Daemon.Writer.Batches.{Ingested, Writes-Ingested}
use esgraph.Daemon.Writer.Goes.{Goes, turn-ne-left}
use esgraph.Daemon.Writer.Live.{Lives}
use esgraph.Daemon.Run.{
  System, Step, receive, time_out, after_turn, Phase, between, waiting, draining, held, Steps,
  Reach, here, ◌▷◌,
}
use esgraph.Daemon.Run.Sound.{Reach-IsSound}
use esgraph.Daemon.Run.Conserves.{Returned, Reach-IsConserved}
use esgraph.Daemon.Run.Stops.{IsOver, Steps-trans, Reach-Drains}

all_taken :
    (taken held channel dropped : List NormalisedEvent) {sent : List NormalisedEvent}
    → held ≡ []
    → channel ≡ []
    → dropped ≡ []
    → taken ++ (held ++ (channel ++ dropped)) ≡ sent
    → taken ≡ sent
all_taken taken held channel dropped idle emptied kept h = rw (idle, emptied, kept, append-nil) at h

module _ {Store Error : Type 0} (ingester : Ingester Store Error) (config : StoreConfig) where
  -- The end of a run: both threads have returned, and the store has ingested these events.
  pub record IsStored (s : System Store Error) (store : Store) (events : List NormalisedEvent)
      : Type 0 where
    pub end : System Store Error
    pub steps : Steps ingester config s end
    pub over : IsOver end
    pub returned : Writer Store
    pub returns : end.writer ≡ left returned
    pub ingested : Ingested ingester events store returned

module _ {Store Error : Type 0} (ingester : Ingester Store Error) (P : NormalisedEvent → Type 0)
    (takes : (events : List NormalisedEvent)
      → All P events
      → (s : Store) → (stats : IngestStats) × ((ingester.ingest events s).0 ≡ ok stats))
    (config : StoreConfig) where
  pub Lives-left :
      (t : Turn Store Error) → Lives P t → goes_on t ≡ false → (w : Writer Store) × (t ≡ left w)
  Lives-left (running w) h ended = cc
  Lives-left (left w) h ended = (w, refl)
  Lives-left (failed e store) h ended = elim h [ ]
  Lives-left (panicked store) h ended = elim h [ ]

  -- Where the writer does not wait and the store takes every batch of events of the kind that
  -- was sent, Ctrl+C can bring the threads to their end with all of them ingested.
  between-IsStored :
      (store : Store) (now : ℕ) {s : System Store Error} {w : Writer Store}
      → Reach ingester config store now s
      → s.writer ≡ running w
      → s.phase ≢ waiting
      → All P s.sent
      → IsStored ingester config s store s.sent
  between-IsStored store now {s} r runs awake fit =
      let d = Reach-Drains ingester config store now r runs awake in
      let u = d.end in
      let reached = Steps-trans ingester config r d.steps in
      let c = Reach-IsConserved ingester config store now reached in
      let sound =
        Reach-IsSound ingester P takes config store now reached
          (subst (All P) (sym d.same_sent) fit) in
      let (v, is_left) = Lives-left u.writer sound.writer d.over.writer_is in
      let (emptied, back) = c.returned d.over.receiver_is in
      let all : c.taken ≡ s.sent =
        all_taken c.taken (held u.phase) u.channel u.dropped (c.idle d.over.writer_is) emptied
          d.none_dropped c.in_order
        ∙ d.same_sent in
      record {
        end = u;
        steps = d.steps;
        over = d.over;
        returned = v;
        returns = is_left;
        ingested =
            subst (λ es. Ingested ingester es store v) all
              (Writes-Ingested ingester c.taken store now
                (subst (λ t. WritesTo ingester (started ingester store now) t c.taken) is_left
                  c.took)
                (subst Returned is_left back));
      }

  -- What follows a step.
  after-IsStored :
      (s : System Store Error) {t : System Store Error} (store : Store)
      (events : List NormalisedEvent)
      → Step ingester config s t
      → IsStored ingester config t store events
      → IsStored ingester config s store events
  after-IsStored s store events step k = record {
    end = k.end;
    steps = Steps-trans ingester config (here ▷ step) k.steps;
    over = k.over;
    returned = k.returned;
    returns = k.returns;
    ingested = k.ingested;
  }

  Lives-running :
      (t : Turn Store Error)
      → Lives P t
      → ((w : Writer Store) → t ≢ left w)
      → (w : Writer Store) × (t ≡ running w)
  Lives-running (running w) h never = (w, refl)
  Lives-running (left w) h never = absurd (never w refl)
  Lives-running (failed e store) h never = elim h [ ]
  Lives-running (panicked store) h never = elim h [ ]

  -- A wait that ends with an event or in vain leaves the writer between two turns.
  waited-IsStored :
      (store : Store) (now : ℕ) (s : System Store Error) (seen : Observed)
      (rest : List NormalisedEvent) (w : Writer Store)
      → Goes seen
      → Reach ingester config store now s
      → Step ingester config s (after_turn ingester config s seen rest w)
      → All P s.sent
      → IsStored ingester config s store s.sent
  waited-IsStored store now s seen rest w goes r step fit =
      let sound = Reach-IsSound ingester P takes config store now (r ▷ step) fit in
      let (v, on) =
        Lives-running (turn ingester config seen w) sound.writer
          (turn-ne-left ingester config seen w goes) in
      after-IsStored s store s.sent step
        (between-IsStored store now (r ▷ step) on (λ e. absurd (cc)) fit)

  -- Where the loop of the writer goes on and the store takes every batch of events of the kind that was
  -- sent, Ctrl+C can bring the threads to their end with all of them ingested.
  pub Reach-IsStored :
      (store : Store) (now : ℕ) {s : System Store Error} {w : Writer Store}
      → Reach ingester config store now s
      → s.writer ≡ running w
      → All P s.sent
      → IsStored ingester config s store s.sent
  Reach-IsStored store now {s} {w} r runs fit = went s.phase refl
    where
      ends :
          (channel : List NormalisedEvent)
          → s.channel ≡ channel
          → s.phase ≡ waiting
          → IsStored ingester config s store s.sent
      ends [] holds waits =
          waited-IsStored store now s (timed_out 0 0) [] w tt r (time_out 0 0 runs waits holds) fit
      ends (ev ∷ rest) holds waits =
          waited-IsStored store now s (received ev 0) rest w tt r (receive 0 runs waits holds) fit

      went : (p : Phase) → s.phase ≡ p → IsStored ingester config s store s.sent
      went between is = between-IsStored store now r runs (λ e. absurd (cc)) fit
      went waiting is = ends s.channel refl is
      went (draining es) is = between-IsStored store now r runs (λ e. absurd (cc)) fit
