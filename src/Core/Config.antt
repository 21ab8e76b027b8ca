-- ===== src/Core/Config.antt =====
-- crates/esgraph-core/src/config.rs: the configuration and its validation. The deserialiser of the
-- `toml` crate is a parameter; a missing key takes the default there, by the `serde` attributes.
mod Defs
pub mod Dedup
pub mod Resolve
pub mod Validate
pub use Defs.{Config, EventsConfig, StoreConfig, MuteConfig}
unfoldable pub use Defs.{
  default_batch_size, default_flush_interval_ms, default_config, configured_names, contains,
  resolve_names, resolved_event_names, validate, from_str, from_file,
}
