-- ===== src/Core/Errors.antt =====
-- crates/esgraph-core/src/error.rs: `ConfigError`. The I/O error of the standard library and the
-- error of the TOML parser are whatever those report, so their types are parameters.
use esgraph.Prelude.{◌++◌}
use esgraph.Prelude.Text.{Text, text}

pub data ConfigError (IoError TomlError : Type 0) : Type 0 where
  read : Text → IoError → ConfigError IoError TomlError
  parse : Text → TomlError → ConfigError IoError TomlError
  validation : Text → ConfigError IoError TomlError

-- `Display`, which the `error` attributes of `thiserror` give.
unfoldable pub config_error_text :
    {IoError TomlError : Type 0}
    → (IoError → Text)
    → (TomlError → Text)
    → ConfigError IoError TomlError
    → Text
config_error_text io_text toml_text (read path source) =
    text "failed to read config file " ++ (path ++ (text ": " ++ io_text source))
config_error_text io_text toml_text (parse path source) =
    text "failed to parse config file " ++ (path ++ (text ": " ++ toml_text source))
config_error_text io_text toml_text (validation message) = text "invalid config: " ++ message
