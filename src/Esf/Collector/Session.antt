-- ===== src/Esf/Collector/Session.antt =====
-- `run_collector` of collector.rs: the client is created, paths are muted, the events are subscribed
-- to, and the thread waits for the flag. The client of `endpoint_sec` is a parameter, whose state its
-- calls change. What the client calls meanwhile is the handler, which its parent module models.
use esgraph.Prelude.{
  Bool, true, false, Option, none, some, List, [], ◌∷◌, ◌++◌, Outcome, ok, err, panic,
}
use esgraph.Prelude.Text.{Text, text}
use esgraph.Core.Config.{Config, resolved_event_names}
use esgraph.Core.Errors.{ConfigError, config_error_text}
use esgraph.Core.Events.{EsEventName}
use esgraph.Esf.Endpoint.{EsEventType}
use esgraph.Esf.Errors.{EsfError, client, subscription}
use esgraph.Esf.Subscribe.{event_names_to_es_types}
use esgraph.Esf.Collector.Errors.{format_client_error}
use esgraph.Esf.Collector.Mutes.{FileSystem, muted_paths}
use esgraph.Esf.Collector.Version.{Version, runtime_version}

-- What the code calls of `Client`, and the texts of its errors.
pub record ClientApi (Client NewError ClientError : Type 0) : Type 0 where
  pub new_client : Outcome NewError Client
  pub mute_path : Text → Client → Outcome ClientError (Unit {0}) × Client
  pub subscribe : List EsEventType → Client → Outcome ClientError (Unit {0}) × Client
  pub new_error_text : NewError → Text
  pub error_text : ClientError → Text

-- A client, with what has been muted and subscribed to.
pub record Session (Client : Type 0) : Type 0 where
  pub client : Client
  pub muted : List Text
  pub subscribed : Option (List EsEventType)

-- What `run_collector` leaves: its result, where it has returned, the version that it has set, and
-- its session, where the client could be created.
pub record Collected (Client : Type 0) : Type 0 where
  pub result : Option (Outcome EsfError (Unit {0}))
  pub version : Option Version
  pub session : Option (Session Client)

-- `while !shutdown.load(…)`, over what the flag is at each poll.
unfoldable pub wait : List Bool → Option (Outcome EsfError (Unit {0}))
wait [] = none
wait (true ∷ polls) = some (ok tt)
wait (false ∷ polls) = wait polls

-- The wait behind a set-up that succeeded, and the return behind one that failed.
abbrev pub waited : List Bool → Outcome EsfError (Unit {0}) → Option (Outcome EsfError (Unit {0}))
waited polls (ok u) = wait polls
waited polls (err e) = some (err e)
waited polls panic = some panic

module _ {FilePath Client NewError ClientError IoError TomlError : Type 0}
    (fs : FileSystem FilePath) (api : ClientApi Client NewError ClientError)
    (io_text : IoError → Text) (toml_text : TomlError → Text) where
  -- The loop of `apply_path_mutes` over the paths that are left.
  unfoldable pub mute_all :
      List Text → Session Client → Outcome EsfError (Unit {0}) × Session Client
  mute_all [] s = (ok tt, s)
  mute_all (path ∷ rest) s =
      let (answer, c) = api.mute_path path s.client in
      elim answer [
        | ok u ↦ mute_all rest (record s { client = c; muted = s.muted ++ path ∷ [] })
        | err e ↦ (
          err (client (text "mute_path " ++ (path ++ (text ": " ++ api.error_text e)))),
          record s { client = c },
        )
        | panic ↦ (panic, record s { client = c })
      ]

  unfoldable pub apply_path_mutes :
      Config → Session Client → Outcome EsfError (Unit {0}) × Session Client
  unfolding mute_all
  apply_path_mutes config s = mute_all (muted_paths fs config) s

  unfoldable pub subscribe_to :
      List EsEventType → Session Client → Outcome EsfError (Unit {0}) × Session Client
  subscribe_to types s =
      let (answer, c) = api.subscribe types s.client in
      elim answer [
        | ok u ↦ (ok tt, record s { client = c; subscribed = some types })
        | err e ↦ (err (client (api.error_text e)), record s { client = c })
        | panic ↦ (panic, record s { client = c })
      ]

  -- From the muting of paths to the subscription.
  unfoldable pub set_up :
      Config → List EsEventType → Session Client → Outcome EsfError (Unit {0}) × Session Client
  unfolding apply_path_mutes subscribe_to
  set_up config types s =
      let (answer, muted) = apply_path_mutes config s in
      elim answer [
        | ok u ↦ subscribe_to types muted
        | err e ↦ (err e, muted)
        | panic ↦ (panic, muted)
      ]

  -- `resolved_event_names` with its error mapped, and the types of the names.
  abbrev pub types_of :
      Outcome (ConfigError IoError TomlError) (List EsEventName)
      → Outcome EsfError (List EsEventType)
  unfolding event_names_to_es_types config_error_text
  types_of (ok names) = ok (event_names_to_es_types names)
  types_of (err e) = err (subscription (config_error_text io_text toml_text e))
  types_of panic = panic

  unfoldable pub event_types : Config → Outcome EsfError (List EsEventType)
  unfolding event_names_to_es_types config_error_text resolved_event_names
  event_types config =
      types_of (resolved_event_names {IoError = IoError} {TomlError = TomlError} config)

  -- From the answer of `Client::new` on.
  abbrev pub with_client :
      Config
      → List Bool
      → Option Version
      → List EsEventType
      → Outcome NewError Client
      → Collected Client
  unfolding set_up format_client_error
  with_client config polls version types (ok c) =
      let (answer, s) =
        set_up config types (record { client = c; muted = []; subscribed = none }) in
      record { result = waited polls answer; version = version; session = some s }
  with_client config polls version types (err e) = record {
    result = some (err (client (format_client_error (api.new_error_text e))));
    version = version;
    session = none;
  }
  with_client config polls version types panic = record {
    result = some panic;
    version = version;
    session = none;
  }

  -- From the types of the configured events on.
  abbrev pub with_types :
      Config → List Bool → Option Version → Outcome EsfError (List EsEventType) → Collected Client
  unfolding set_up format_client_error
  with_types config polls version (ok types) =
      with_client config polls version types (api.new_client)
  with_types config polls version (err e) = record {
    result = some (err e);
    version = version;
    session = none;
  }
  with_types config polls version panic = record {
    result = some panic;
    version = version;
    session = none;
  }

  -- `run_collector`, from what `sw_vers` printed and what the flag is at each poll.
  unfoldable pub run_collector : Option Text → Config → List Bool → Collected Client
  unfolding event_types set_up format_client_error runtime_version
  run_collector printed config polls =
      with_types config polls (runtime_version printed) (event_types config)
