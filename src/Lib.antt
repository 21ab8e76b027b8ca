-- ===== src/Lib.antt =====
-- A verification library for esgraph, which records events of the macOS Endpoint Security
-- Framework (ESF) as a graph in a LadybugDB database.
--
-- The program and its model. Paths are from the root of the repository.
-- - crates/esgraph-core: Core. Core/Model has the nodes, edges and details of model.rs; Core/Events
--   the registry of event names of events.rs; Core/Config the configuration of config.rs, its
--   validation and the list of events to subscribe to.
-- - crates/esgraph-store: Store. Store/Cypher has the text of literals and assignments (cypher.rs),
--   Store/Statements the statements of one event and Store/Batch the function `ingest_batch` that
--   joins those of a batch into one script (ingest.rs), with Orders and Effects there for what the
--   statements are about and what they make of a graph, Store/Schema the tables (schema.rs), and
--   Store/Graph the opening of a store and its counts (store.rs, and `load_next_ingest_id` of
--   ingest.rs), and Store/Query the results of queries as text (query.rs).
-- - crates/esgraph-esf: Esf. Esf/Endpoint holds what the program reads of a message, Esf/Subscribe the
--   event types (subscribe.rs), Esf/Normalise the function `normalise_message` with its helpers
--   (normalise.rs), and Esf/Collector the handler of messages (collector.rs). Its children have the rest
--   of collector.rs: Session `run_collector`, Mutes the paths that are muted, Version the version of
--   the host, and Errors the hints of client errors.
-- - crates/esgraphd: Daemon. Daemon/Writer has the thread that batches events (writer.rs), Daemon/Run
--   the threads of `cmd_run` with the flag and the channel between them (main.rs), and Daemon/Replay
--   the loader of fixtures (replay.rs) with `cmd_replay` (main.rs). Daemon/Commands has `cmd_query` and
--   `cmd_status`, with Live for `cmd_run` and Main for `main` (main.rs); Daemon/Console is the monad
--   of what a command prints and asks of its store. Daemon/Pipeline joins the collector's handler, the
--   run of the threads and the store, and Daemon/OneBatch compares the batches of a run with one batch.
-- The collector normalises each message and sends the event to a bounded channel. The writer takes
-- events from the channel, and gives them to the store in batches. What the writer relies on of the
-- store is the record `Ingester` of Store/Ingester, which `graph_store` there implements by
-- `ingest_batch`. What the store needs of an event is `IsIngestible` of Store/Batch/Writable, which
-- the normaliser is shown to provide.
--
-- State and errors. A `Result` that may also panic is `Outcome` of Prelude/Fallible, and `?` is its
-- bind. A store is the record `StoreState` of its database and its counter of ids, passed through
-- every operation. A turn of the writer's loop is a function of what the turn observes of the flag,
-- the channel and the clock; a run of it is a list of observations, any list. In Daemon/Run the
-- threads take turns in any order, as a step relation; a turn reads the flag in one step and the channel
-- in the next, so that the flag may be set while the writer waits, and once it has seen the flag it
-- takes the events from the channel one by one, while the collector may send;
-- the collector may fail before it subscribes, and the writer, when it returns, drops the receiver with
-- what is in the channel.
--
-- Numbers and text. Text is a list of code points. Numbers are native ones; `fetch_add` on the counter
-- of ids is taken modulo 2^64, the casts between 64-bit widths are `i64_wrapped` and `i64_saturated`
-- of Prelude/Int, and the time of a message is computed with the saturation of the source. Counters
-- of type `usize` are not bounded. The only fuel is that of `show_digits`, which prints a number n
-- with fuel n: every step but the last divides by ten, so n steps are enough.
--
-- Not under the control of the program, and parameters here: the `lbug` driver (`Driver`, `Opener` and
-- the names of the columns of a result), `serde_json` and `toml`, the file system with its paths, the
-- current directory, `sw_vers`, the client of `endpoint_sec` and the accessors of its messages, the
-- lossy decoding of file names, and the handler of `ctrlc`. What a theorem needs of them is among its
-- hypotheses. Store/Statements/Rows reads the clauses of an upsert, and Store/Batch/Reads and Effects the
-- texts of whole statements, by the meaning that Cypher gives to `MERGE`, `SET`, `MATCH` and `CREATE`;
-- Daemon/Pipeline/Grammar says which statements a database is taken to know. The driver stays a
-- parameter there too. `run_collector` and `cmd_run` take what their threads see as arguments, any of
-- it: the polls of the flag, the messages and the turns of the writer. Where these end before a thread
-- does, the result is `none`.
--
-- Not modelled: the parsing of arguments by `clap`, the set-up of logging and log output, the JSON forms
-- of the model, the text of the errors that `anyhow` prints when `main` fails, and the stub of the
-- collector on other systems.
pub mod Prelude
pub mod Core
pub mod Store
pub mod Daemon
pub mod Esf
pub mod Tests
