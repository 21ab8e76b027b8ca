-- ===== src/Daemon/Pipeline.antt =====
-- The collector, the writer and the store together: what the handler of messages sends, the writer
-- gives to `ingest_batch`.
pub mod Grammar
pub mod Scripts
use esgraph.Prelude.{ℕ, ◌≡◌, subst, sym, List, [], ◌∷◌, ◌++◌, All, All-mono, Option, ok}
use esgraph.Prelude.Text.{Text, text, join}
use esgraph.Core.Model.{EventDetails, NormalisedEvent}
use esgraph.Core.Config.{StoreConfig}
use esgraph.Store.Statements.{StoreError}
use esgraph.Store.Batch.{Driver, StoreState, IngestStats, nothing_built, ingest_batch}
use esgraph.Store.Batch.Orders.{batch_orders, AreTexts, push_events-Puts}
use esgraph.Store.Cypher.Script.{separator}
use esgraph.Daemon.Pipeline.Grammar.{IsCypher}
use esgraph.Daemon.Pipeline.Scripts.{HasTables, AreTexts-IsCypher, batch_orders-Fits}
use esgraph.Store.Batch.Validation.{ingest_batch_total}
use esgraph.Store.Batch.Writable.{IsIngestible}
use esgraph.Store.Ingester.{graph_store}
use esgraph.Esf.Endpoint.{Message}
use esgraph.Esf.Normalise.Parts.{OsText}
use esgraph.Esf.Collector.{handle_messages, sent, HasTokens, sent-IsIngestible, sent-HasTable}
use esgraph.Daemon.Writer.{Observed, Writer, left, running, writer_loop}
use esgraph.Daemon.Writer.Ledger.{all_events}
use esgraph.Daemon.Writer.Batches.{Ingested}
use esgraph.Daemon.Writer.Complete.{writer_loop-Ingested}
use esgraph.Daemon.Writer.Goes.{Goes}
use esgraph.Daemon.Writer.Ends.{IsLast}
use esgraph.Daemon.Writer.Live.{writer_loop_total}
use esgraph.Daemon.Run.{System, Reach}
use esgraph.Daemon.Run.Conserves.{IsDelivered, Reach-IsDelivered}
use esgraph.Daemon.Run.Stops.{IsOver}
use esgraph.Daemon.Run.Sound.{Reach-IsSound}
use esgraph.Daemon.Run.Stored.{IsStored, Lives-left, Reach-IsStored}

-- A database that is always there: it can be connected to, and runs every script of statements that it
-- knows, which name only tables and columns of the schema.
pub record IsUp {Database DbError Row : Type 0} (driver : Driver Database DbError Row)
    : Type 0 where
  pub connects : (db : Database) → driver.connect db ≡ ok tt
  pub runs :
      (s : Text) (ss : List Text)
      → All IsCypher (s ∷ ss)
      → (db : Database)
      → (rows : List Row) × ((driver.query (join (text ";\n") (s ∷ ss)) db).0 ≡ ok rows)

-- An event that the store can write into its tables.
abbrev pub IsWritable : NormalisedEvent → Type 0
IsWritable event = IsIngestible event × HasTables event

writable :
    (events : List NormalisedEvent)
    → All IsIngestible events
    → All HasTables events
    → All IsWritable events
writable [] h k = tt
writable (event ∷ rest) h k = ((h.0, k.0), writable rest h.1 k.1)

module _ {Database DbError Row : Type 0} (IoError : Type 0) (driver : Driver Database DbError Row)
    (to_json : EventDetails → Option Text) where
  runs_built :
      IsUp driver
      → (db : Database) (event : NormalisedEvent) (rest : List NormalisedEvent) (next : ℕ)
        (texts : List Text)
      → AreTexts DbError IoError to_json (batch_orders next (event ∷ rest)) texts
      → All HasTables (event ∷ rest)
      → (rows : List Row) × ((driver.query (join separator texts) db).0 ≡ ok rows)
  runs_built up db event rest next [] are h = elim are [ ]
  runs_built up db event rest next (s ∷ ss) are h =
      up.runs s ss
        (AreTexts-IsCypher DbError IoError to_json (batch_orders next (event ∷ rest)) (s ∷ ss)
          (batch_orders-Fits next (event ∷ rest) h) are)
        db

  ingest_ok :
      IsUp driver
      → (events : List NormalisedEvent) → All IsWritable events
      → (s : StoreState Database)
      → (stats : IngestStats) × ((ingest_batch {IoError = IoError} driver to_json events s).0
          ≡ ok stats)
  ingest_ok up events fit s =
      ingest_batch_total IoError driver to_json events s
        (All-mono IsWritable IsIngestible events (λ e h. h.0) fit) (up.connects s.db)
        (λ event rest b same built.
          let put =
            push_events-Puts DbError IoError to_json s.next_ingest_id nothing_built (event ∷ rest)
              built in
          runs_built up s.db event rest s.next_ingest_id b.statements
            (subst (AreTexts DbError IoError to_json (batch_orders s.next_ingest_id (event ∷ rest)))
              (sym put.behind) put.are)
            (subst (All HasTables) same (All-mono IsWritable HasTables events (λ e h. h.1) fit)))

  -- What the collector sends of such messages can be written.
  sent-IsWritable :
      (os : OsText) (msgs : List Message)
      → All HasTokens msgs
      → All IsWritable (sent (handle_messages os msgs))
  sent-IsWritable os msgs tokens =
      writable (sent (handle_messages os msgs)) (sent-IsIngestible os msgs tokens)
        (sent-HasTable os msgs)

  -- If the database is up, the processes of the messages have tokens, and the turns of the writer, of
  -- which only the last may end it and does, take from the channel what the handler of the messages
  -- sends, then the writer returns, has ingested every such event, once and in order, and its
  -- counters are those of these events.
  pub writer_loop-handle_messages :
      (os : OsText) (config : StoreConfig) (msgs : List Message) (before : List Observed)
      (last : Observed) (store : StoreState Database) (now : ℕ)
      → IsUp driver
      → All HasTokens msgs
      → All Goes before
      → IsLast last
      → all_events (before ++ last ∷ []) ≡ sent (handle_messages os msgs)
      → (w : Writer (StoreState Database)) × (writer_loop
            (graph_store IoError driver to_json)
            config
            (before ++ last ∷ [])
            store
            now
          ≡ left w)
        × Ingested (graph_store IoError driver to_json) (sent (handle_messages os msgs)) store w
  writer_loop-handle_messages os config msgs before last store now up tokens goes ends taken =
      let ingester = graph_store IoError driver to_json in
      let fit = subst (All IsWritable) (sym taken) (sent-IsWritable os msgs tokens) in
      let (w, returns, delivers) =
        writer_loop_total ingester IsWritable (ingest_ok up) config before last [] store now fit
          ends in
      let all = writer_loop-Ingested ingester config before last store now goes returns in
      (w, returns, subst (λ events. Ingested ingester events store w) taken all)

  -- However the collector, the channel and the writer have taken turns while the loop of the writer
  -- goes on: if the database is up, and what was sent is what the handler sends of messages whose
  -- processes have tokens, then Ctrl+C can bring both threads to their return, with every event that
  -- was sent ingested, once and in order, and with the counters of these events.
  pub handle_messages-IsStored :
      (os : OsText) (config : StoreConfig) (msgs : List Message) (store : StoreState Database)
      (now : ℕ) {s : System (StoreState Database) (StoreError DbError IoError)}
      {w : Writer (StoreState Database)}
      → IsUp driver
      → All HasTokens msgs
      → Reach (graph_store IoError driver to_json) config store now s
      → s.sent ≡ sent (handle_messages os msgs)
      → s.writer ≡ running w
      → IsStored
          (graph_store IoError driver to_json)
          config
          s
          store
          (sent (handle_messages os msgs))
  handle_messages-IsStored os config msgs store now {s} up tokens r taken runs =
      let ingester = graph_store IoError driver to_json in
      let fit = subst (All IsWritable) (sym taken) (sent-IsWritable os msgs tokens) in
      subst (IsStored ingester config s store) taken
        (Reach-IsStored ingester IsWritable (ingest_ok up) config store now r runs fit)

  -- However the collector, the channel and the writer have taken turns until both threads have
  -- returned: if the database is up, and what was sent is what the handler sends of messages whose
  -- processes have tokens, then the writer has returned without an error, and the store has ingested,
  -- once and in order, all that was sent but what was in the channel when the writer returned.
  pub handle_messages-IsDelivered :
      (os : OsText) (config : StoreConfig) (msgs : List Message) (store : StoreState Database)
      (now : ℕ) {s : System (StoreState Database) (StoreError DbError IoError)}
      → IsUp driver
      → All HasTokens msgs
      → Reach (graph_store IoError driver to_json) config store now s
      → s.sent ≡ sent (handle_messages os msgs)
      → IsOver s
      → (w : Writer (StoreState Database)) × (s.writer ≡ left w)
        × IsDelivered (graph_store IoError driver to_json) config store now s w
  handle_messages-IsDelivered os config msgs store now {s} up tokens r taken over =
      let ingester = graph_store IoError driver to_json in
      let fit = subst (All IsWritable) (sym taken) (sent-IsWritable os msgs tokens) in
      let sound = Reach-IsSound ingester IsWritable (ingest_ok up) config store now r fit in
      let (w, is_left) =
        Lives-left ingester IsWritable (ingest_ok up) config s.writer sound.writer over.writer_is in
      (w, is_left, Reach-IsDelivered ingester config store now r over.receiver_is is_left)
