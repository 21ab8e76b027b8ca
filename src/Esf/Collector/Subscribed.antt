-- ===== src/Esf/Collector/Subscribed.antt =====
-- What `run_collector` has done when it returns.
use esgraph.Prelude.{
  Bool, true, ◌||◌, ◌≡◌, ◌≢◌, refl, subst, Option, none, some, List, [], ◌∷◌, ◌++◌, Outcome, ok,
  err, panic, arith,
}
use esgraph.Prelude.Text.{Text}
use esgraph.Core.Config.{Config, resolved_event_names}
use esgraph.Core.Events.{EsEventName}
use esgraph.Esf.Endpoint.{EsEventType}
use esgraph.Esf.Errors.{EsfError}
use esgraph.Esf.Subscribe.{event_names_to_es_types}
use esgraph.Esf.Collector.Errors.{format_client_error}
use esgraph.Esf.Collector.Mutes.{FileSystem, is_prefix, store_mute_prefix, muted_paths}
use esgraph.Core.Config.Resolve.{mentions}
use esgraph.Esf.Collector.Version.{Version, runtime_version}
use esgraph.Esf.Collector.Session.{
  ClientApi, Session, Collected, mute_all, apply_path_mutes, subscribe_to, set_up, event_types,
  with_client, with_types, run_collector,
}
use esgraph.Esf.Collector.Waits.{waited_ends, waited-err}

module _ {FilePath Client NewError ClientError IoError TomlError : Type 0}
    (fs : FileSystem FilePath) (api : ClientApi Client NewError ClientError)
    (io_text : IoError → Text) (toml_text : TomlError → Text) where
  abbrev collect : Option Text → Config → List Bool → Collected Client
  collect printed config polls = run_collector fs api io_text toml_text printed config polls

  abbrev muting : List Text → Session Client → Outcome EsfError (Unit {0}) × Session Client
  muting paths s = mute_all fs api io_text toml_text paths s

  -- The muting changes no subscription.
  mute_all-subscribed :
      (paths : List Text) (s : Session Client) → (muting paths s).1.subscribed ≡ s.subscribed
  unfolding mute_all
  mute_all-subscribed [] s = refl
  mute_all-subscribed (path ∷ rest) s =
      let c = (api.mute_path path s.client).1 in
      ground
        (arith, mute_all-subscribed rest (record s { client = c; muted = s.muted ++ path ∷ [] }))

  set_up-err :
      (config : Config) (types : List EsEventType) (s : Session Client) {e : EsfError}
      → s.subscribed ≡ none
      → (set_up fs api io_text toml_text config types s).0 ≡ err e
      → (set_up fs api io_text toml_text config types s).1.subscribed ≡ none
  unfolding set_up apply_path_mutes subscribe_to
  set_up-err config types s fresh h = ground (arith, mute_all-subscribed (muted_paths fs config) s)

  -- What a collector that has returned without an error has done.
  pub record IsSubscribed (config : Config) (collected : Collected Client) : Type 0 where
    pub names : List EsEventName
    pub resolved :
        resolved_event_names {IoError = IoError} {TomlError = TomlError} config ≡ ok names
    pub session : Session Client
    pub is_session : collected.session ≡ some session
    pub subscribed : session.subscribed ≡ some (event_names_to_es_types names)
    pub muted : session.muted ≡ muted_paths fs config
    pub mutes :
        (path : Text)
        → mentions session.muted path ≡ (
            mentions config.mute.paths path
            || is_prefix (store_mute_prefix fs config.store.path) path)

  started_err :
      (config : Config) (polls : List Bool) (version : Option Version) (types : List EsEventType)
      (answer : Outcome NewError Client) {e : EsfError} {s : Session Client}
      → (with_client fs api io_text toml_text config polls version types answer).result
        ≡ some (err e)
      → (with_client fs api io_text toml_text config polls version types answer).session ≡ some s
      → s.subscribed ≡ none
  unfolding set_up format_client_error
  started_err config polls version types (ok c) {s = s} h k =
      let fresh : Session Client = record { client = c; muted = []; subscribed = none } in
      let after = set_up fs api io_text toml_text config types fresh in
      let same : some after.1 ≡ some s = k in
      subst (λ t. t.subscribed ≡ none) {x = after.1} {y = s} (cc)
        (set_up-err config types fresh refl (waited-err polls after.0 h))
  started_err config polls version types (err e) h k = cc
  started_err config polls version types panic h k = cc

  started_ends :
      (config : Config) (before after : List Bool) (version : Option Version)
      (types : List EsEventType) (answer : Outcome NewError Client)
      → (with_client fs api io_text toml_text config
          (before ++ true ∷ after)
          version
          types
          answer).result
        ≢ none
  unfolding set_up format_client_error
  started_ends config before after version types (ok c) h =
      waited_ends before after
        (set_up fs api io_text toml_text config types
          (record { client = c; muted = []; subscribed = none })).0
        h
  started_ends config before after version types (err e) h = cc
  started_ends config before after version types panic h = cc

  -- A collector that returns an error has subscribed to nothing.
  pub run_collector_refused :
      (printed : Option Text) (config : Config) (polls : List Bool) {e : EsfError}
      {s : Session Client}
      → (collect printed config polls).result ≡ some (err e)
      → (collect printed config polls).session ≡ some s
      → s.subscribed ≡ none
  unfolding run_collector
  run_collector_refused printed config polls h k =
      from (event_types fs api io_text toml_text config) h k
    where
      from :
          (answer : Outcome EsfError (List EsEventType)) {e : EsfError} {s : Session Client}
          → (with_types fs api io_text toml_text config polls
              (runtime_version printed)
              answer).result
            ≡ some (err e)
          → (with_types fs api io_text toml_text config polls
              (runtime_version printed)
              answer).session
            ≡ some s
          → s.subscribed ≡ none
      from (ok types) h k =
          started_err config polls (runtime_version printed) types (api.new_client) h k
      from (err e) h k = cc
      from panic h k = cc

  -- A collector returns when a poll finds the flag set, if not before.
  pub run_collector_ends :
      (printed : Option Text) (config : Config) (before after : List Bool)
      → (collect printed config (before ++ true ∷ after)).result ≢ none
  unfolding run_collector
  run_collector_ends printed config before after h =
      from (event_types fs api io_text toml_text config) h
    where
      from :
          (answer : Outcome EsfError (List EsEventType))
          → (with_types fs api io_text toml_text config
              (before ++ true ∷ after)
              (runtime_version printed)
              answer).result
            ≢ none
      from (ok types) h =
          started_ends config before after (runtime_version printed) types (api.new_client) h
      from (err e) h = cc
      from panic h = cc
