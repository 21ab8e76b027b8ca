-- ===== src/Daemon/Run/Stops.antt =====
-- That the threads can always come to their end: the collector sees the flag, the writer drains the
-- channel and returns.
use esgraph.Prelude.{
  ℕ, ◌≡◌, ◌≢◌, refl, sym, ap, ◌∙◌, subst, List, ◌∷◌, ◌++◌, append_assoc, append-nil, Bool-cases,
  inl, inr, true, false, [],
}
use esgraph.Core.Model.{NormalisedEvent}
use esgraph.Core.Config.{StoreConfig}
use esgraph.Store.Ingester.{Ingester}
use esgraph.Daemon.Writer.{Writer, running, stopping, goes_on, turn}
use esgraph.Daemon.Writer.Ends.{stop-goes_on, finish-goes_on}
use esgraph.Daemon.Run.{
  System, Collecting, setting_up, subscribed, gone, subscribe, interrupt, close, Phase, between,
  waiting, draining, see_flag, take, drain, hand_back, after_turn, after_return, Steps, Reach, here,
  ◌▷◌,
}
use esgraph.Daemon.Run.Conserves.{Returned, Reach-IsConserved}

-- The collector and the writer have returned.
pub record IsOver {Store Error : Type 0} (s : System Store Error) : Type 0 where
  pub collector_is : s.collector ≡ gone
  pub writer_is : goes_on s.writer ≡ false
  pub receiver_is : s.receiving ≡ false

module _ {Store Error : Type 0} (ingester : Ingester Store Error) (config : StoreConfig) where
  pub Steps-trans :
      {s t u : System Store Error}
      → Steps ingester config s t
      → Steps ingester config t u
      → Steps ingester config s u
  Steps-trans a here = a
  Steps-trans a (b ▷ step) = Steps-trans a b ▷ step

  -- Under the flag the collector comes to its end.
  collector_ends :
      (s : System Store Error)
      → s.shutdown ≡ true
      → Steps ingester config s (record s { collector = gone })
  collector_ends s flag = went s.collector refl
    where
      went :
          (c : Collecting)
          → s.collector ≡ c
          → Steps ingester config s (record s { collector = gone })
      went setting_up is = here ▷ subscribe is ▷ close refl flag
      went subscribed is = here ▷ close is flag
      went gone is = subst (λ c. Steps ingester config s (record s { collector = c })) is here

  -- Ctrl+C, and the end of the collector.
  abbrev stopped : System Store Error → System Store Error
  stopped s = record s { shutdown = true; collector = gone }

  stopped-Steps : (s : System Store Error) → Steps ingester config s (stopped s)
  stopped-Steps s =
      Steps-trans (here ▷ interrupt) (collector_ends (record s { shutdown = true }) refl)

  -- A writer that drains takes what is in the channel.
  takes :
      (channel : List NormalisedEvent) (s : System Store Error) (es : List NormalisedEvent)
      {w : Writer Store}
      → s.writer ≡ running w
      → s.phase ≡ draining es
      → s.channel ≡ channel
      → Steps ingester config s (record s { channel = []; phase = draining (es ++ channel) })
  takes [] s es runs drains holds =
      subst (λ p. Steps ingester config s (record s { channel = []; phase = p }))
        (drains ∙ ap draining (sym (append-nil es)))
        (subst (λ c. Steps ingester config s (record s { channel = c })) holds here)
  takes (ev ∷ rest) s es runs drains holds =
      let s1 = record s { channel = rest; phase = draining (es ++ ev ∷ []) } in
      subst (λ l. Steps ingester config s (record s { channel = []; phase = draining l }))
        (append_assoc es (ev ∷ []) rest)
        (Steps-trans (here ▷ take runs drains holds) (takes rest s1 (es ++ ev ∷ []) runs refl refl))

  -- The end of its loop, when it has taken these events.
  abbrev drained : System Store Error → List NormalisedEvent → Writer Store → System Store Error
  drained s es w =
      after_turn ingester config (record (stopped s) { channel = []; phase = draining es })
        (stopping es) [] w

  drained-goes_on :
      (s : System Store Error) (es : List NormalisedEvent) (w : Writer Store)
      → goes_on (drained s es w).writer ≡ false
  unfolding turn
  drained-goes_on s es w = stop-goes_on ingester config es w

  returned-IsOver :
      (s : System Store Error)
      → s.collector ≡ gone
      → goes_on s.writer ≡ false
      → IsOver (after_return ingester config s)
  returned-IsOver s away over = record {
    collector_is = away;
    writer_is = finish-goes_on ingester config s.writer over;
    receiver_is = refl;
  }

  pub receiving_while_running :
      (store : Store) (now : ℕ) {s : System Store Error} {w : Writer Store}
      → Reach ingester config store now s
      → s.writer ≡ running w
      → s.receiving ≡ true
  receiving_while_running store now {s} r runs = elim (Bool-cases s.receiving) [
    | inl there ↦ there
    | inr away ↦
        absurd
          (subst Returned runs ((Reach-IsConserved ingester config store now r).returned away).1)
  ]

  -- What a stop comes to.
  pub record Drains (s : System Store Error) : Type 0 where
    pub end : System Store Error
    pub steps : Steps ingester config s end
    pub over : IsOver end
    pub same_sent : end.sent ≡ s.sent
    pub none_dropped : end.dropped ≡ []

  stopped-Drains :
      (store : Store) (now : ℕ) (s : System Store Error) (es : List NormalisedEvent)
      {w : Writer Store}
      → Reach ingester config store now s
      → s.writer ≡ running w
      → s.phase ≡ draining es
      → Drains s
  stopped-Drains store now s es {w} r runs drains =
      let there = receiving_while_running store now r runs in
      let over = drained-goes_on s (es ++ s.channel) w in
      record {
        end = after_return ingester config (drained s (es ++ s.channel) w);
        steps =
            Steps-trans (stopped-Steps s) (takes s.channel (stopped s) es runs drains refl)
            ▷ drain runs refl refl
            ▷ hand_back over there;
        over = returned-IsOver (drained s (es ++ s.channel) w) refl over;
        same_sent = refl;
        none_dropped = refl;
      }

  -- What a stop comes to, that a step or more precede in which nothing is sent.
  pub before-Drains :
      {s t : System Store Error} → Steps ingester config s t → t.sent ≡ s.sent → Drains t → Drains s
  before-Drains steps same d = record {
    end = d.end;
    steps = Steps-trans steps d.steps;
    over = d.over;
    same_sent = d.same_sent ∙ same;
    none_dropped = d.none_dropped;
  }

  -- Where the loop of the writer goes on and the writer does not wait, Ctrl+C can bring the threads to
  -- their end in steps that send nothing more, so that nothing stays in the channel.
  pub Reach-Drains :
      (store : Store) (now : ℕ) {s : System Store Error} {w : Writer Store}
      → Reach ingester config store now s
      → s.writer ≡ running w
      → s.phase ≢ waiting
      → Drains s
  Reach-Drains store now {s} r runs awake = went s.phase refl
    where
      went : (p : Phase) → s.phase ≡ p → Drains s
      went between is =
          let seen = see_flag runs is refl in
          let reached = r ▷ interrupt ▷ seen in
          before-Drains (here ▷ interrupt ▷ seen) refl (
            stopped-Drains store now (record s { shutdown = true; phase = draining [] }) [] reached
              runs refl)
      went waiting is = absurd (awake is)
      went (draining es) is = stopped-Drains store now s es r runs is
