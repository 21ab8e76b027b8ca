-- ===== src/Daemon/Commands/Exit.antt =====
-- What `cmd_run` returns and prints, against what its two threads did.
use esgraph.Prelude.{
  ◌≡◌, ◌≢◌, ◌↔◌, refl, sym, subst, ap, ◌∙◌, List, [], ◌∷◌, Option, none, some, Outcome, ok, err,
  panic, Outcome-cases, inl, inr, arith,
}
use esgraph.Prelude.Text.{Text}
use esgraph.Core.Config.{Config, StoreConfig}
use esgraph.Store.Statements.{StoreError}
use esgraph.Store.Batch.{StoreState}
use esgraph.Store.Graph.{from_config}
use esgraph.Store.Ingester.{graph_store}
use esgraph.Esf.Errors.{EsfError, unsupported_platform, client, normalise, subscription}
use esgraph.Esf.Collector.Mutes.{FileSystem}
use esgraph.Esf.Collector.Session.{ClientApi, run_collector}
use esgraph.Daemon.Writer.{Writer, Turn, running, left, failed, panicked, writer_loop}
use esgraph.Daemon.Writer.Batches.{Ingested, writer_loop-Delivers}
use esgraph.Daemon.Writer.Ledger.{taken}
use esgraph.Store.Batch.Counts.{totals}
use esgraph.Daemon.Commands.Reads.{counts, read_counts, read_counts-ingested_line}
use esgraph.Daemon.Commands.{World, Ended, Failure, graph_line}
use esgraph.Daemon.Commands.Live.{
  Seen, Joined, ingested_line, counter_lines, ended_thread, writer_thread, spawn_writer, exit_of,
  meet, cmd_run,
}

module _
    {Database DbError IoError TomlError JsonError HandlerError Other FilePath Client NewError
      ClientError : Type 0}
    (world : World Database DbError IoError TomlError JsonError HandlerError Other)
    (fs : FileSystem FilePath) (api : ClientApi Client NewError ClientError)
    (io_text : IoError → Text) (toml_text : TomlError → Text) where
  abbrev collects : Config → Seen → Option (Outcome EsfError (Unit {0}))
  collects config seen =
      (run_collector fs api io_text toml_text seen.printed config seen.polls).result

  exit_of_err : (e : EsfError) → exit_of world fs api io_text toml_text (err e) ≢ ok tt
  unfolding exit_of
  exit_of_err unsupported_platform h = cc
  exit_of_err (client m) h = cc
  exit_of_err (normalise m) h = cc
  exit_of_err (subscription m) h = cc

  meet_iff :
      (config : Config) (collected : Option (Outcome EsfError (Unit {0})))
      (joined : Option (Joined Database DbError IoError)) {ended : Ended Database (Failure world)}
      → meet world fs api io_text toml_text config collected joined ≡ some ended
      → (ended.result ≡ ok tt) ↔ (collected ≡ some (ok tt))
  unfolding exit_of
  meet_iff config none joined h = absurd (ground arith)
  meet_iff config (some panic) none h = absurd (ground arith)
  meet_iff config (some panic) (some joined) h = ((λ r. absurd (ground arith)), λ r. cc)
  meet_iff config (some (ok u)) none h = absurd (ground arith)
  meet_iff config (some (err e)) none h = absurd (ground arith)
  meet_iff config (some (ok u)) (some joined) h = ((λ r. refl), λ r. ground arith)
  meet_iff config (some (err e)) (some joined) h =
      ((λ r. absurd (exit_of_err e (ground arith))), λ r. cc)

  -- Where the handler of Ctrl+C is installed, a `cmd_run` that ends succeeds exactly when its collector
  -- does, whatever its writer did.
  pub cmd_run_iff :
      (config : Config) (seen : Seen) {ended : Ended Database (Failure world)}
      → world.set_handler ≡ ok tt
      → cmd_run world fs api io_text toml_text config seen ≡ some ended
      → (ended.result ≡ ok tt) ↔ (
          (run_collector fs api io_text toml_text seen.printed config seen.polls).result
          ≡ some (ok tt))
  unfolding cmd_run
  cmd_run_iff config seen {ended} installed h =
      let joined = spawn_writer world fs api io_text toml_text config.store seen in
      meet_iff config (collects config seen) joined {ended = ended} (ground (arith, installed))

  -- What a `cmd_run` that prints has done: it has opened its store, the writer has ingested every event
  -- that its loop took, and the line that is printed tells the counts of these events.
  pub record IsCounted (config : Config) (seen : Seen) (lines : List Text) : Type 0 where
    pub store : StoreState Database
    pub opens :
        from_config {IoError = IoError} world.driver world.display world.opener config.store
        ≡ ok store
    pub writer : Writer (StoreState Database)
    pub ingests :
        Ingested (graph_store IoError world.driver world.to_json) (taken seen.observed) store writer
    pub line : Text
    pub shown : lines ≡ line ∷ graph_line config.store ∷ []
    pub tells : read_counts line ≡ some (counts (totals (taken seen.observed)))

  abbrev run_writer :
      Config → Seen → StoreState Database → Turn (StoreState Database) (StoreError DbError IoError)
  run_writer config seen store =
      writer_loop (graph_store IoError world.driver world.to_json) config.store seen.observed store
        seen.now

  ended_thread-lines :
      (config : StoreConfig) (t : Turn (StoreState Database) (StoreError DbError IoError))
      {joined : Joined Database DbError IoError}
      → ended_thread t ≡ some joined
      → counter_lines config joined.answer ≢ []
      → (w : Writer (StoreState Database)) × (t ≡ left w)
        × (counter_lines config joined.answer ≡ ingested_line w.total ∷ graph_line config ∷ [])
  ended_thread-lines config (running w) h ne = absurd (ground arith)
  ended_thread-lines config (left w) h ne = (w, refl, ground arith)
  ended_thread-lines config (failed e store) h ne = absurd (ne (ground arith))
  ended_thread-lines config (panicked store) h ne = absurd (ne (ground arith))

  writer_thread-IsCounted :
      (config : Config) (seen : Seen)
      (opened : Outcome (StoreError DbError IoError) (StoreState Database))
      {joined : Joined Database DbError IoError}
      → from_config world.driver world.display world.opener config.store ≡ opened
      → writer_thread world fs api io_text toml_text config.store seen opened ≡ some joined
      → counter_lines config.store joined.answer ≢ []
      → IsCounted config seen (counter_lines config.store joined.answer)
  unfolding writer_loop
  writer_thread-IsCounted config seen (ok store) e h ne =
      let (w, ends, shown) = ended_thread-lines config.store (run_writer config seen store) h ne in
      let all =
        writer_loop-Delivers (graph_store IoError world.driver world.to_json) config.store
          seen.observed store seen.now ends in
      record {
        store = store;
        opens = e;
        writer = w;
        ingests = all;
        line = ingested_line w.total;
        shown = shown;
        tells = read_counts-ingested_line w.total ∙ ap (λ stats. some (counts stats)) all.counted;
      }
  writer_thread-IsCounted config seen (err x) e h ne = absurd (ne (ground arith))
  writer_thread-IsCounted config seen panic e h ne = absurd (ne (ground arith))

  meet-lines :
      (config : Config) (collected : Option (Outcome EsfError (Unit {0})))
      (joined : Option (Joined Database DbError IoError)) {ended : Ended Database (Failure world)}
      → meet world fs api io_text toml_text config collected joined ≡ some ended
      → ended.lines ≢ []
      → (j : Joined Database DbError IoError) × (joined ≡ some j)
        × (ended.lines ≡ counter_lines config.store j.answer)
  unfolding exit_of
  meet-lines config none joined h ne = absurd (ground arith)
  meet-lines config (some panic) none h ne = absurd (ground arith)
  meet-lines config (some panic) (some joined) h ne = absurd (ne (ground arith))
  meet-lines config (some (ok u)) none h ne = absurd (ground arith)
  meet-lines config (some (err e)) none h ne = absurd (ground arith)
  meet-lines config (some (ok u)) (some joined) h ne = (joined, refl, ground arith)
  meet-lines config (some (err e)) (some joined) h ne = (joined, refl, ground arith)

  -- A `cmd_run` that prints anything prints a line that tells, as numbers before the words, how many
  -- events its writer has taken from the channel and ingested, once and in order, and how many nodes
  -- and edges they have, and then the path of the graph.
  pub cmd_run-IsCounted :
      (config : Config) (seen : Seen) {ended : Ended Database (Failure world)}
      → cmd_run world fs api io_text toml_text config seen ≡ some ended
      → ended.lines ≢ []
      → IsCounted config seen ended.lines
  unfolding cmd_run spawn_writer
  cmd_run-IsCounted config seen {ended} h ne = elim (Outcome-cases world.set_handler) [
    | inl (u, installed) ↦
        let met : meet world fs api io_text toml_text config (collects config seen)
              (spawn_writer world fs api io_text toml_text config.store seen)
            ≡ some ended =
          ground (arith, installed) in
        let (j, joined, shown) =
          meet-lines config (collects config seen)
            (spawn_writer world fs api io_text toml_text config.store seen) met ne in
        let counted =
          writer_thread-IsCounted config seen
            (from_config world.driver world.display world.opener config.store) refl joined
            (λ e. ne (shown ∙ e)) in
        subst (IsCounted config seen) (sym shown) counted
    | inr (inl (e, refused)) ↦ absurd (ne (ground (arith, refused)))
    | inr (inr refused) ↦ absurd (ne (ground (arith, refused)))
  ]
