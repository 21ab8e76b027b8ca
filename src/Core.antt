-- ===== src/Core.antt =====
-- crates/esgraph-core: the graph model, the registry of event names and the configuration.
pub mod Model
pub mod Errors
pub mod Events
pub mod Config
