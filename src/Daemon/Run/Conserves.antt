-- ===== src/Daemon/Run/Conserves.antt =====
-- Between the collector and the store no event is lost, repeated or reordered but those that are in
-- the channel when the writer returns.
use esgraph.Prelude.{
  ℕ, ◌≡◌, refl, sym, ap, ◌∙◌, subst, true, false, List, [], ◌∷◌, ◌++◌, concat, append_assoc,
  append-nil,
}
use esgraph.Core.Model.{NormalisedEvent}
use esgraph.Core.Config.{StoreConfig}
use esgraph.Store.Batch.Counts.{totals}
use esgraph.Store.Ingester.{Ingester}
use esgraph.Daemon.Writer.{
  Observed, stopping, received, timed_out, disconnected, Writer, Turn, running, left, failed,
  panicked, turn, finish, started, goes_on,
}
use esgraph.Daemon.Writer.Ledger.{events_of, Ingests, Writes-refl}
use esgraph.Daemon.Writer.Takes.{WritesTo, then-WritesTo, turn-WritesTo}
use esgraph.Daemon.Writer.Ends.{finish-goes_on}
use esgraph.Daemon.Writer.Batches.{finish-WritesTo, Writes-Ingested}
use esgraph.Daemon.Run.{
  System, Step, subscribe, give_up, send, refuse, interrupt, close, look, see_flag, take, drain,
  receive, time_out, disconnect, hand_back, after_turn, after_return, draining, held, Reach, here,
  ◌▷◌,
}

-- The writer has returned, and without an error nothing is pending.
abbrev pub Returned : {Store Error : Type 0} → Turn Store Error → Type 0
Returned (running w) = ⊥
Returned (left w) = w.batch ≡ []
Returned (failed e store) = Unit
Returned (panicked store) = Unit

module _ {Store Error : Type 0} (ingester : Ingester Store Error) (config : StoreConfig)
    (store : Store) (now : ℕ) where
  -- The events that the channel has taken are those that the writer has taken from it, and behind
  -- them those that are in it, or were when the writer returned.
  pub record IsConserved (s : System Store Error) : Type 0 where
    pub taken : List NormalisedEvent
    pub took : WritesTo ingester (started ingester store now) s.writer taken
    pub in_order : taken ++ (held s.phase ++ (s.channel ++ s.dropped)) ≡ s.sent
    pub idle : goes_on s.writer ≡ false → held s.phase ≡ []
    pub none_dropped : s.receiving ≡ true → s.dropped ≡ []
    pub returned : s.receiving ≡ false → (s.channel ≡ []) × Returned s.writer

  -- A turn that takes its events from the front of the channel.
  after_turn-IsConserved :
      (s : System Store Error) (seen : Observed) (rest : List NormalisedEvent) {w : Writer Store}
      → s.writer ≡ running w
      → held s.phase ++ s.channel ≡ events_of seen ++ rest
      → IsConserved s
      → IsConserved (after_turn ingester config s seen rest w)
  after_turn-IsConserved s seen rest {w} runs split c =
      let first = started ingester store now in
      let took = subst (λ t. WritesTo ingester first t c.taken) runs c.took in
      record {
        taken = c.taken ++ events_of seen;
        took =
            then-WritesTo ingester first w c.taken (events_of seen) (turn ingester config seen w)
              took (turn-WritesTo ingester config seen w);
        in_order =
            (simp append_assoc)
            ∙ ap (λ l. c.taken ++ (l ++ s.dropped)) (sym split)
            ∙ ap (◌++◌ c.taken) (append_assoc (held s.phase) s.channel s.dropped)
            ∙ c.in_order;
        idle = λ over. refl;
        none_dropped = c.none_dropped;
        returned = λ away. absurd (subst Returned runs (c.returned away).1);
      }

  -- A step that leaves the writer, the receiver and the events where they are.
  same-IsConserved :
      (s t : System Store Error)
      → t.writer ≡ s.writer
      → t.receiving ≡ s.receiving
      → t.channel ≡ s.channel
      → held t.phase ≡ held s.phase
      → t.dropped ≡ s.dropped
      → t.sent ≡ s.sent
      → IsConserved s
      → IsConserved t
  same-IsConserved s t writes receives holds keeps drops sends c = record {
    taken = c.taken;
    took = rw writes c.took;
    in_order = rw (holds, keeps, drops, sends) c.in_order;
    idle = rw (writes, keeps) c.idle;
    none_dropped = rw (receives, drops) c.none_dropped;
    returned = rw (receives, holds, writes) c.returned;
  }

  send-IsConserved :
      (s : System Store Error) (ev : NormalisedEvent)
      → s.receiving ≡ true
      → IsConserved s
      → IsConserved (record s { channel = s.channel ++ ev ∷ []; sent = s.sent ++ ev ∷ [] })
  send-IsConserved s ev there c =
      let none = c.none_dropped there in
      let kept : c.taken ++ (held s.phase ++ s.channel) ≡ s.sent =
        rw (none, append-nil) at c.in_order in
      record {
        taken = c.taken;
        took = c.took;
        in_order = rw (none, append-nil) ((simp append_assoc) ∙ ap (λ l. l ++ ev ∷ []) kept);
        idle = c.idle;
        none_dropped = c.none_dropped;
        returned = λ away. absurd (cc);
      }

  -- The loop over `try_recv`.
  take-IsConserved :
      (s : System Store Error) (es : List NormalisedEvent) (ev : NormalisedEvent)
      (rest : List NormalisedEvent) {w : Writer Store}
      → s.writer ≡ running w
      → s.phase ≡ draining es
      → s.channel ≡ ev ∷ rest
      → IsConserved s
      → IsConserved (record s { channel = rest; phase = draining (es ++ ev ∷ []) })
  take-IsConserved s es ev rest runs drains holds c = record {
    taken = c.taken;
    took = c.took;
    in_order =
        ap (◌++◌ c.taken) (append_assoc es (ev ∷ []) (rest ++ s.dropped))
        ∙ (rw (drains, holds) at c.in_order);
    idle = λ over. absurd (cc);
    none_dropped = c.none_dropped;
    returned = λ away. absurd (subst Returned runs (c.returned away).1);
  }

  finished-Returned :
      (w : Writer Store) (es : List NormalisedEvent) (t : Turn Store Error)
      → WritesTo ingester w t es
      → goes_on t ≡ false
      → WritesTo ingester w (finish ingester t) es × Returned (finish ingester t)
  finished-Returned w es t h ended = went (finish ingester t) refl
    where
      went : (u : Turn Store Error) → finish ingester t ≡ u → WritesTo ingester w u es × Returned u
      went (running v) e = let over = finish-goes_on ingester config t ended in absurd (cc)
      went (left v) e = finish-WritesTo ingester w v es t h e
      went (failed e store) k = (tt, tt)
      went (panicked store) k = (tt, tt)

  hand_back-IsConserved :
      (s : System Store Error)
      → goes_on s.writer ≡ false
      → s.receiving ≡ true
      → IsConserved s
      → IsConserved (after_return ingester config s)
  hand_back-IsConserved s ended there c =
      let first = started ingester store now in
      let (took, returned) = finished-Returned first c.taken s.writer c.took ended in
      record {
        taken = c.taken;
        took = took;
        in_order = rw (c.none_dropped there, append-nil) at c.in_order;
        idle = λ over. c.idle ended;
        none_dropped = λ there. absurd (cc);
        returned = λ away. (refl, returned);
      }

  Step-IsConserved :
      (s : System Store Error) {t : System Store Error}
      → Step ingester config s t
      → IsConserved s
      → IsConserved t
  Step-IsConserved s {t} (subscribe setting) = same-IsConserved s t refl refl refl refl refl refl
  Step-IsConserved s {t} (give_up setting) = same-IsConserved s t refl refl refl refl refl refl
  Step-IsConserved s (send ev subs there room) = send-IsConserved s ev there
  Step-IsConserved s {t} (refuse ev subs away) = same-IsConserved s t refl refl refl refl refl refl
  Step-IsConserved s {t} interrupt = same-IsConserved s t refl refl refl refl refl refl
  Step-IsConserved s {t} (close subs flag) = same-IsConserved s t refl refl refl refl refl refl
  Step-IsConserved s {t} (look runs idle unset) =
      same-IsConserved s t refl refl refl (ap held (sym idle)) refl refl
  Step-IsConserved s {t} (see_flag runs idle flag) =
      same-IsConserved s t refl refl refl (ap held (sym idle)) refl refl
  Step-IsConserved s (take {w} {es} {ev} {rest} runs drains holds) =
      take-IsConserved s es ev rest runs drains holds
  Step-IsConserved s (drain {w} {es} runs drains holds) =
      after_turn-IsConserved s (stopping es) [] runs (rw (drains, holds) refl)
  Step-IsConserved s (receive at {ev} {rest} runs waits holds) =
      after_turn-IsConserved s (received ev at) rest runs (rw (waits, holds) refl)
  Step-IsConserved s (time_out elapsed_at at runs waits holds) =
      after_turn-IsConserved s (timed_out elapsed_at at) [] runs (rw (waits, holds) refl)
  Step-IsConserved s (disconnect runs waits holds away) =
      after_turn-IsConserved s disconnected [] runs (rw (waits, holds) refl)
  Step-IsConserved s (hand_back ended there) = hand_back-IsConserved s ended there

  pub Reach-IsConserved :
      {s : System Store Error} → Reach ingester config store now s → IsConserved s
  Reach-IsConserved here = record {
    taken = [];
    took = Writes-refl ingester (started ingester store now);
    in_order = refl;
    idle = λ over. refl;
    none_dropped = λ there. refl;
    returned = λ away. absurd (cc);
  }
  Reach-IsConserved (◌▷◌ {t} r step) = Step-IsConserved t step (Reach-IsConserved r)

  -- What the store has of the events that were sent, when the writer has returned `w`.
  pub record IsDelivered (s : System Store Error) (w : Writer Store) : Type 0 where
    pub batches : List (List NormalisedEvent)
    pub ingests : Ingests ingester store batches w.store
    pub in_order : concat batches ++ s.dropped ≡ s.sent
    pub counted : w.total ≡ totals (concat batches)

  -- However the collector, the channel and the writer take turns: when the writer has returned
  -- without an error, the store has ingested, once and in order, all the events that the channel took
  -- but those that were in it when the writer returned, and the writer returns their counts.
  pub Reach-IsDelivered :
      {s : System Store Error} {w : Writer Store}
      → Reach ingester config store now s
      → s.receiving ≡ false
      → s.writer ≡ left w
      → IsDelivered s w
  Reach-IsDelivered {s} {w} r away is_left =
      let c = Reach-IsConserved r in
      let first = started ingester store now in
      let all =
        Writes-Ingested ingester c.taken store now
          (subst (λ t. WritesTo ingester first t c.taken) is_left c.took)
          (subst Returned is_left (c.returned away).1) in
      record {
        batches = all.batches;
        ingests = all.ingests;
        in_order =
            ap (λ l. l ++ s.dropped) all.in_order
            ∙ ap (λ l. c.taken ++ (l ++ s.dropped)) (sym (c.returned away).0)
            ∙ ap (λ l. c.taken ++ (l ++ (s.channel ++ s.dropped)))
                (sym (c.idle (ap goes_on is_left)))
            ∙ c.in_order;
        counted = all.counted ∙ ap totals (sym all.in_order);
      }
