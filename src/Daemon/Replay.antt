-- ===== src/Daemon/Replay.antt =====
-- crates/esgraphd/src/replay.rs, the loader of fixtures, with `cmd_replay` of main.rs. The file system
-- and the JSON readers of `serde_json` are parameters; the context that `anyhow` puts around an
-- error is a constructor with the path.
use esgraph.Prelude.{
  ◌≡◌, refl, sym, ap, ◌∙◌, List, [], ◌∷◌, ◌++◌, concat, append_assoc, append-nil, if◌then◌else◌,
  Outcome, ok, err, panic, map_err, map_err-eq-ok, ◌>>=◌, Option, none, some, arith,
}
use esgraph.Prelude.Text.{Text, text, trim, starts_with}
use esgraph.Core.Model.{EventDetails, NormalisedEvent}
use esgraph.Core.Config.{Config}
use esgraph.Store.Cypher.{Value}
use esgraph.Store.Statements.{StoreError}
use esgraph.Store.Batch.{IngestStats, Driver, StoreState, ingest_batch}
use esgraph.Store.Batch.Counts.{totals}
use esgraph.Store.Batch.Commits.{ingest_batch-stats}
use esgraph.Store.Graph.{Row, Opener, from_config}

pub data FixtureError (IoError JsonError : Type 0) : Type 0 where
  read_fixture : Text → IoError → FixtureError IoError JsonError
  parse_array : Text → JsonError → FixtureError IoError JsonError
  parse_object : Text → JsonError → FixtureError IoError JsonError

-- `fs::read_to_string` and `serde_json::from_str` at the two types.
pub record Reader (IoError JsonError : Type 0) : Type 0 where
  pub read_to_string : Text → Outcome IoError Text
  pub events_from_str : Text → Outcome JsonError (List NormalisedEvent)
  pub event_from_str : Text → Outcome JsonError NormalisedEvent

module _ {IoError JsonError : Type 0} (reader : Reader IoError JsonError) where
  -- The branches of `load_fixture` on the trimmed text.
  unfoldable pub parse_fixture :
      Text → Text → Outcome (FixtureError IoError JsonError) (List NormalisedEvent)
  unfolding starts_with
  parse_fixture path trimmed =
      let object = map_err (parse_object path) (reader.event_from_str trimmed) in
      if starts_with (text "[") trimmed
      then map_err (parse_array path) (reader.events_from_str trimmed)
      else (do event ← object; ok (event ∷ []))

  unfoldable pub load_fixture :
      Text → Outcome (FixtureError IoError JsonError) (List NormalisedEvent)
  unfolding parse_fixture trim
  load_fixture path = do
    contents ← map_err (read_fixture path) (reader.read_to_string path)
    parse_fixture path (trim contents)

  -- The loop of `load_fixtures` over the paths that are left.
  unfoldable pub append_fixtures :
      List NormalisedEvent
      → List Text
      → Outcome (FixtureError IoError JsonError) (List NormalisedEvent)
  append_fixtures all [] = ok all
  append_fixtures all (path ∷ rest) = do
    events ← load_fixture path
    append_fixtures (all ++ events) rest

  unfoldable pub load_fixtures :
      List Text → Outcome (FixtureError IoError JsonError) (List NormalisedEvent)
  unfolding append_fixtures
  load_fixtures paths = append_fixtures [] paths

  -- Every fixture by itself, up to the first that cannot be loaded.
  unfoldable pub load_each :
      List Text → Outcome (FixtureError IoError JsonError) (List (List NormalisedEvent))
  load_each [] = ok []
  load_each (path ∷ rest) = do
    events ← load_fixture path
    others ← load_each rest
    ok (events ∷ others)

  abbrev joined :
      List NormalisedEvent
      → Outcome (FixtureError IoError JsonError) (List (List NormalisedEvent))
      → Outcome (FixtureError IoError JsonError) (List NormalisedEvent)
  joined all parts = parts >>= λ ps. ok (all ++ concat ps)

  joined-cons :
      (all events : List NormalisedEvent)
      (parts : Outcome (FixtureError IoError JsonError) (List (List NormalisedEvent)))
      → joined (all ++ events) parts ≡ joined all (parts >>= λ others. ok (events ∷ others))
  joined-cons all events (ok ps) = ap ok (append_assoc all events (concat ps))
  joined-cons all events (err e) = refl
  joined-cons all events panic = refl

  append_fixtures-cons :
      (all : List NormalisedEvent) (rest : List Text)
      → ((l : List NormalisedEvent) → append_fixtures l rest ≡ joined l (load_each rest))
      → (m : Outcome (FixtureError IoError JsonError) (List NormalisedEvent))
      → (m >>= λ events. append_fixtures (all ++ events) rest)
        ≡ joined all (m >>= λ events. load_each rest >>= λ others. ok (events ∷ others))
  append_fixtures-cons all rest ih (ok events) =
      ih (all ++ events) ∙ joined-cons all events (load_each rest)
  append_fixtures-cons all rest ih (err e) = refl
  append_fixtures-cons all rest ih panic = refl

  append_fixtures-eq :
      (all : List NormalisedEvent) (paths : List Text)
      → append_fixtures all paths ≡ joined all (load_each paths)
  unfolding append_fixtures load_each
  append_fixtures-eq all [] = ap ok (sym (append-nil all))
  append_fixtures-eq all (path ∷ rest) =
      append_fixtures-cons all rest (λ l. append_fixtures-eq l rest) (load_fixture path)

  -- `load_fixtures` gives the events of the fixtures in the order of the paths, and the error of the
  -- first fixture that cannot be loaded where there is one.
  pub load_fixtures-concat :
      (paths : List Text) → load_fixtures paths ≡ (do parts ← load_each paths; ok (concat parts))
  unfolding load_fixtures
  load_fixtures-concat paths = append_fixtures-eq [] paths

-- What `cmd_replay` fails with.
pub data ReplayError (DbError IoError JsonError : Type 0) : Type 0 where
  fixture : FixtureError IoError JsonError → ReplayError DbError IoError JsonError
  store : StoreError DbError IoError → ReplayError DbError IoError JsonError

-- What `cmd_replay` leaves: its answer, with the counters that it prints, and the database of the store,
-- if it opened one, whatever came of the events then.
pub record Replayed (Database DbError IoError JsonError : Type 0) : Type 0 where
  pub answer : Outcome (ReplayError DbError IoError JsonError) IngestStats
  pub db : Option Database

module _ {Database DbError IoError Other JsonError : Type 0}
    (driver : Driver Database DbError (Row Other)) (display : Value Other → Text)
    (opener : Opener Database DbError IoError) (to_json : EventDetails → Option Text)
    (reader : Reader IoError JsonError) where
  -- From the answer of `open_store` on.
  abbrev pub replay_into :
      List NormalisedEvent
      → Outcome (StoreError DbError IoError) (StoreState Database)
      → Replayed Database DbError IoError JsonError
  unfolding ingest_batch
  replay_into events (ok opened) =
      let (answer, after) = ingest_batch driver to_json events opened in
      record { answer = map_err ReplayError.store answer; db = some after.db }
  replay_into events (err e) = record { answer = err (ReplayError.store e); db = none }
  replay_into events panic = record { answer = panic; db = none }

  -- From the answer of `load_fixtures` on.
  abbrev pub replay_loaded :
      Config
      → Outcome (FixtureError IoError JsonError) (List NormalisedEvent)
      → Replayed Database DbError IoError JsonError
  unfolding from_config replay_into
  replay_loaded config (ok events) =
      replay_into events (from_config driver display opener config.store)
  replay_loaded config (err e) = record { answer = err (fixture e); db = none }
  replay_loaded config panic = record { answer = panic; db = none }

  -- `cmd_replay`
  unfoldable pub cmd_replay : Config → List Text → Replayed Database DbError IoError JsonError
  unfolding load_fixtures replay_loaded
  cmd_replay config fixtures = replay_loaded config (load_fixtures reader fixtures)

  replay_into-totals :
      (events : List NormalisedEvent)
      (opened : Outcome (StoreError DbError IoError) (StoreState Database)) {stats : IngestStats}
      → (replay_into events opened).answer ≡ ok stats
      → stats ≡ totals events
  unfolding replay_into
  replay_into-totals events (ok opened) h =
      ingest_batch-stats IoError driver to_json events opened
        (map_err-eq-ok ReplayError.store (ingest_batch driver to_json events opened).0 h)
  replay_into-totals events (err e) h = absurd (ground arith)
  replay_into-totals events panic h = absurd (ground arith)

  -- The counters of a replay that succeeds are those of the events in the fixtures.
  pub cmd_replay-totals :
      (config : Config) (fixtures : List Text) {stats : IngestStats}
      → (cmd_replay config fixtures).answer ≡ ok stats
      → (events : List NormalisedEvent) × (load_fixtures reader fixtures ≡ ok events)
        × (stats ≡ totals events)
  unfolding cmd_replay
  cmd_replay-totals config fixtures {stats} h = from (load_fixtures reader fixtures) refl h
    where
      from :
          (answer : Outcome (FixtureError IoError JsonError) (List NormalisedEvent))
          → load_fixtures reader fixtures ≡ answer
          → (replay_loaded config answer).answer ≡ ok stats
          → (events : List NormalisedEvent) × (load_fixtures reader fixtures ≡ ok events)
            × (stats ≡ totals events)
      from (ok events) e k =
          (events, e, replay_into-totals events (from_config driver display opener config.store) k)
      from (err x) e k = absurd (ground arith)
      from panic e k = absurd (ground arith)
