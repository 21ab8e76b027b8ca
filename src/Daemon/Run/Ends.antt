-- ===== src/Daemon/Run/Ends.antt =====
-- That the threads come to their end whatever they do, once the flag is set: each can take only so many
-- steps, and until they have returned one of them can take a step.
use esgraph.Prelude.{
  ℕ, ◌+◌, ◌≤◌, ◌≡◌, refl, length, length-append, ◌++◌, ap, Bool, Bool-cases, ◌⊎◌, inl, inr, true,
  false, List, [], ◌∷◌, arith,
}
use esgraph.Core.Model.{NormalisedEvent}
use esgraph.Core.Config.{StoreConfig}
use esgraph.Store.Ingester.{Ingester}
use esgraph.Daemon.Writer.{
  Observed, Writer, Turn, running, stopping, received, timed_out, disconnected, finish, goes_on,
  turn,
}
use esgraph.Daemon.Writer.Ends.{stop-goes_on, finish-goes_on}
use esgraph.Daemon.Run.{
  System, Collecting, setting_up, subscribed, gone, Step, subscribe, give_up, send, refuse,
  interrupt, close, Phase, between, waiting, draining, look, see_flag, take, drain, receive,
  time_out, disconnect, hand_back, after_turn, Steps, here, ◌▷◌,
}
use esgraph.Daemon.Run.Stops.{IsOver}

-- The steps that the collector can still take, besides sending.
abbrev collector_work : Collecting → ℕ
collector_work setting_up = 2
collector_work subscribed = 1
collector_work gone = 0

-- Those of the writer under the flag, besides taking an event: the end of a wait, the reading of the
-- flag, the end of its drain, and its return.
abbrev loop_work : Phase → ℕ
loop_work waiting = 4
loop_work between = 3
loop_work (draining es) = 2

abbrev writer_work : Bool → Phase → Bool → ℕ
writer_work true phase receiving = loop_work phase
writer_work false phase true = 1
writer_work false phase false = 0

abbrev work : {Store Error : Type 0} → System Store Error → ℕ
work s =
    collector_work s.collector
    + writer_work (goes_on s.writer) s.phase s.receiving
    + length s.channel

writer_work_rest : (goes receiving : Bool) → writer_work goes between receiving ≤ 3
writer_work_rest true receiving = omega arith
writer_work_rest false true = omega arith
writer_work_rest false false = omega arith

writer_work_left : (receiving : Bool) → writer_work false between receiving ≤ 1
writer_work_left true = omega arith
writer_work_left false = omega arith

collector_work_max : (c : Collecting) → collector_work c ≤ 2
collector_work_max setting_up = omega arith
collector_work_max subscribed = omega arith
collector_work_max gone = omega arith

loop_work_max : (p : Phase) → loop_work p ≤ 4
loop_work_max waiting = omega arith
loop_work_max between = omega arith
loop_work_max (draining es) = omega arith

writer_work_max : (goes : Bool) (p : Phase) (receiving : Bool) → writer_work goes p receiving ≤ 4
writer_work_max true p receiving = loop_work_max p
writer_work_max false p true = omega arith
writer_work_max false p false = omega arith

module _ {Store Error : Type 0} (ingester : Ingester Store Error) (config : StoreConfig) where
  -- The step counts, which a `send`, taken or refused, and a Ctrl+C do not.
  abbrev pub weight : {s t : System Store Error} → Step ingester config s t → ℕ
  weight (send ev subs there room) = 0
  weight (refuse ev subs away) = 0
  weight interrupt = 0
  weight _ = 1

  abbrev pub count : {s t : System Store Error} → Steps ingester config s t → ℕ
  count here = 0
  count (r ▷ step) = count r + weight step

  -- The events that the channel takes in a run.
  abbrev pub weight_sent : {s t : System Store Error} → Step ingester config s t → ℕ
  weight_sent (send ev subs there room) = 1
  weight_sent _ = 0

  abbrev pub count_sent : {s t : System Store Error} → Steps ingester config s t → ℕ
  count_sent here = 0
  count_sent (r ▷ step) = count_sent r + weight_sent step

  -- The end of a wait leaves less to do.
  waited-work :
      (s : System Store Error) (seen : Observed) (rest : List NormalisedEvent) {w : Writer Store}
      → s.writer ≡ running w
      → s.phase ≡ waiting
      → length rest ≤ length s.channel
      → 1 + work (after_turn ingester config s seen rest w) ≤ work s
  waited-work s seen rest {w} runs waits fewer =
      let doing : writer_work (goes_on s.writer) s.phase s.receiving ≡ 4 = rw (runs, waits) refl in
      omega
        (arith, doing, fewer, writer_work_rest (goes_on (turn ingester config seen w)) s.receiving)

  -- Under the flag a step that counts leaves less to do, and a send one event more.
  Step-work :
      (s : System Store Error) {t : System Store Error} (step : Step ingester config s t)
      → s.shutdown ≡ true
      → weight step + work t ≤ work s + weight_sent step
  Step-work s (subscribe setting) flag = omega (arith, ap collector_work setting)
  Step-work s (give_up setting) flag = omega (arith, ap collector_work setting)
  Step-work s (send ev subs there room) flag = omega (arith, length-append s.channel (ev ∷ []))
  Step-work s (refuse ev subs away) flag = omega arith
  Step-work s interrupt flag = omega arith
  Step-work s (close subs set) flag = omega (arith, ap collector_work subs)
  Step-work s (look runs idle unset) flag = absurd (cc)
  Step-work s (see_flag {w} runs idle set) flag =
      let doing : writer_work (goes_on s.writer) s.phase s.receiving ≡ 3 = rw (runs, idle) refl in
      let rest : writer_work (goes_on s.writer) (draining []) s.receiving ≡ 2 = rw runs refl in
      omega (arith, doing, rest)
  Step-work s (take {w} {es} {ev} {rest} runs drains holds) flag =
      let doing : writer_work (goes_on s.writer) s.phase s.receiving ≡ 2 = rw (runs, drains) refl in
      let again : writer_work (goes_on s.writer) (draining (es ++ ev ∷ [])) s.receiving ≡ 2 =
        rw runs refl in
      omega (arith, doing, again, ap length holds)
  Step-work s (drain {w} {es} runs drains holds) flag =
      let doing : writer_work (goes_on s.writer) s.phase s.receiving ≡ 2 = rw (runs, drains) refl in
      let over : goes_on (turn ingester config (stopping es) w) ≡ false =
        unfold turn in stop-goes_on ingester config es w in
      let rest : writer_work (goes_on (turn ingester config (stopping es) w)) between s.receiving
          ≤ 1 =
        rw over (writer_work_left s.receiving) in
      omega (arith, doing, rest)
  Step-work s (receive at {w} {ev} {rest} runs waits holds) flag =
      omega (arith, waited-work s (received ev at) rest runs waits (omega (arith, ap length holds)))
  Step-work s (time_out elapsed_at at {w} runs waits holds) flag =
      omega (arith, waited-work s (timed_out elapsed_at at) [] runs waits (omega arith))
  Step-work s (disconnect {w} runs waits holds away) flag =
      omega (arith, waited-work s disconnected [] runs waits (omega arith))
  Step-work s (hand_back ended there) flag =
      let doing : writer_work (goes_on s.writer) s.phase s.receiving ≡ 1 = rw (ended, there) refl in
      let rest : writer_work (goes_on (finish ingester s.writer)) s.phase false ≡ 0 =
        rw (finish-goes_on ingester config s.writer ended) refl in
      omega (arith, doing, rest)

  Step-shutdown :
      (s : System Store Error) {t : System Store Error}
      → Step ingester config s t
      → s.shutdown ≡ true
      → t.shutdown ≡ true
  Step-shutdown s interrupt flag = refl
  Step-shutdown s _ flag = flag

  Steps-work :
      {s t : System Store Error} (r : Steps ingester config s t)
      → s.shutdown ≡ true
      → (count r + work t ≤ work s + count_sent r) × (t.shutdown ≡ true)
  Steps-work here flag = (omega arith, flag)
  Steps-work (◌▷◌ {t} r step) flag =
      let (less, set) = Steps-work r flag in
      (omega (arith, less, Step-work t step set), Step-shutdown t step set)

  -- A step that counts can be taken.
  pub CanStep : System Store Error → Type 0
  CanStep s = (t : System Store Error) × (step : Step ingester config s t) × (weight step ≡ 1)

  writer_steps :
      (s : System Store Error) (t : Turn Store Error) (channel : List NormalisedEvent)
      → s.writer ≡ t
      → s.channel ≡ channel
      → s.collector ≡ gone
      → s.shutdown ≡ true
      → IsOver s ⊎ CanStep s
  unfolding CanStep
  writer_steps s (running w) channel runs holds away flag = acts s.phase channel refl holds
    where
      acts :
          (p : Phase) (channel : List NormalisedEvent)
          → s.phase ≡ p
          → s.channel ≡ channel
          → IsOver s ⊎ CanStep s
      acts between channel is holds = inr (_, see_flag runs is flag, refl)
      acts waiting [] is holds = inr (_, time_out 0 0 runs is holds, refl)
      acts waiting (ev ∷ rest) is holds = inr (_, receive 0 runs is holds, refl)
      acts (draining es) [] is holds = inr (_, drain runs is holds, refl)
      acts (draining es) (ev ∷ rest) is holds = inr (_, take runs is holds, refl)
  writer_steps s t channel ends holds away flag = elim (Bool-cases s.receiving) [
    | inl there ↦ inr (_, hand_back (rw ends refl) there, refl)
    | inr left_alone ↦
        inl (record { collector_is = away; writer_is = rw ends refl; receiver_is = left_alone })
  ]

  collector_steps :
      (s : System Store Error) (c : Collecting)
      → s.collector ≡ c
      → s.shutdown ≡ true
      → IsOver s ⊎ CanStep s
  unfolding CanStep
  collector_steps s setting_up is flag = inr (_, give_up is, refl)
  collector_steps s subscribed is flag = inr (_, close is flag, refl)
  collector_steps s gone is flag = writer_steps s s.writer s.channel refl refl is flag

  -- Once the flag is set, the collector and the writer take, however they take turns, at most six more
  -- steps and one for each event that is in the channel then or is sent later, besides the sends,
  -- those that are refused, and further signals; so the loop that drains the channel goes on no longer
  -- than the collector sends, and as long as not both of them have returned, one of them can take such
  -- a step.
  pub Steps-IsOver :
      {s t : System Store Error} (r : Steps ingester config s t)
      → s.shutdown ≡ true
      → (count r ≤ 6 + length s.channel + count_sent r) × (IsOver t ⊎ CanStep t)
  Steps-IsOver {s} {t} r flag =
      let (less, set) = Steps-work r flag in
      (
        omega (
          arith,
          less,
          collector_work_max s.collector,
          writer_work_max (goes_on s.writer) s.phase s.receiving,
        ),
        collector_steps t t.collector refl set,
      )
