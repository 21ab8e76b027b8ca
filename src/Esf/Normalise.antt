-- ===== src/Esf/Normalise.antt =====
-- crates/esgraph-esf/src/normalise.rs: a message becomes a `NormalisedEvent`. Parameters are the
-- lossy decoding of an `OsStr` to text, `serde_json::to_string` on a list of arguments and the
-- `Debug` form of an event type.
pub mod Parts
pub mod Message
pub mod Graph
pub mod Details
pub mod Kinds
pub mod Ingestible
