-- ===== src/Core/Config/Defs.antt =====
-- The records of the configuration, `Config::default`, `from_file`, `from_str`, `validate` and
-- `resolved_event_names`.
use esgraph.Prelude.{
  ℕ, Bool, false, ◌||◌, List, [], ◌∷◌, ◌++◌, ◌==◌, if◌then◌else◌, Outcome, ok, err, panic, ◌>>=◌,
  is_empty,
}
use esgraph.Prelude.Text.{Text, text, trim}
use esgraph.Core.Errors.{ConfigError, read, parse, validation}
use esgraph.Core.Events
use esgraph.Core.Events.{EsEventName, name_eq}

pub record EventsConfig : Type 0 where
  pub process : List Text
  pub file : List Text
  pub network : List Text

pub record StoreConfig : Type 0 where
  pub path : Text
  pub batch_size : ℕ
  pub flush_interval_ms : ℕ

pub record MuteConfig : Type 0 where
  pub paths : List Text

pub record Config : Type 0 where
  pub events : EventsConfig
  pub store : StoreConfig
  pub mute : MuteConfig

abbrev pub default_batch_size : ℕ
default_batch_size = 500

abbrev pub default_flush_interval_ms : ℕ
default_flush_interval_ms = 1000

unfoldable pub default_config : Config
default_config = record {
  events = record {
    process = text "notify_exec" ∷ text "notify_fork" ∷ text "notify_exit" ∷ [];
    file =
        text "notify_create"
        ∷ text "notify_write"
        ∷ text "notify_unlink"
        ∷ text "notify_rename"
        ∷ [];
    network = text "notify_uipc_bind" ∷ text "notify_uipc_connect" ∷ [];
  };
  store = record {
    path = text "data/events.lbug";
    batch_size = default_batch_size;
    flush_interval_ms = default_flush_interval_ms;
  };
  mute = record { paths = text "/System" ∷ text "/private/var/db" ∷ [] };
}

-- The texts in the order in which `resolved_event_names` chains them.
abbrev pub configured_names : Config → List Text
configured_names c = c.events.process ++ (c.events.file ++ c.events.network)

-- `out.contains(&name)`
unfoldable pub contains : List EsEventName → EsEventName → Bool
contains [] name = false
contains (x ∷ xs) name = name_eq x name || contains xs name

module _ {IoError TomlError : Type 0} where
  -- The loop of `resolved_event_names` over the texts that are left.
  unfoldable pub resolve_names :
      List EsEventName → List Text → Outcome (ConfigError IoError TomlError) (List EsEventName)
  unfolding contains
  resolve_names out [] = ok out
  resolve_names out (raw ∷ rest) = do
    name ← Events.from_str raw
    resolve_names (if contains out name then out else out ++ name ∷ []) rest

  unfoldable pub resolved_event_names :
      Config → Outcome (ConfigError IoError TomlError) (List EsEventName)
  unfolding resolve_names
  resolved_event_names c = resolve_names [] (configured_names c)

  unfoldable pub validate : Config → Outcome (ConfigError IoError TomlError) (Unit {0})
  unfolding resolved_event_names
  validate c =
      if c.store.batch_size == 0
      then err (validation (text "store.batch_size must be > 0"))
      else if is_empty (trim c.store.path)
      then err (validation (text "store.path must not be empty"))
      else (do names ← resolved_event_names c; ok tt)

  -- `toml::from_str` is a parameter; its error is wrapped with the path `<string>`.
  unfoldable pub from_str :
      (Text → Outcome TomlError Config) → Text → Outcome (ConfigError IoError TomlError) Config
  unfolding validate
  from_str toml toml_str = elim (toml toml_str) [
    | ok config ↦ validate config >>= λ _. ok config
    | err source ↦ err (parse (text "<string>") source)
    | panic ↦ panic
  ]

  -- `std::fs::read_to_string` at the path is a parameter; `Path::display` is the text of the path.
  unfoldable pub from_file :
      (Text → Outcome IoError Text)
      → (Text → Outcome TomlError Config)
      → Text
      → Outcome (ConfigError IoError TomlError) Config
  unfolding from_str
  from_file read_to_string toml path = elim (read_to_string path) [
    | ok contents ↦ from_str toml contents
    | err source ↦ err (read path source)
    | panic ↦ panic
  ]
