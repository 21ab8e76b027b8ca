-- ===== src/Esf.antt =====
-- crates/esgraph-esf: live messages of the Endpoint Security Framework, reduced to graph events.
pub mod Endpoint
pub mod Errors
pub mod Subscribe
pub mod Normalise
pub mod Collector
