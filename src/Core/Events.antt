-- ===== src/Core/Events.antt =====
-- crates/esgraph-core/src/events.rs: the registry of event names, and the two directions between a
-- name and its text.
mod Names
pub mod RoundTrip
pub use Names.{EsEventName}
unfoldable pub use Names.{
  to_string, is_auth, all_names, default_subscription_set, from_str, arms, name_eq,
}
pub use Names.{name_eq_iff}
