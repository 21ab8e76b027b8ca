-- ===== src/Store.antt =====
-- crates/esgraph-store: Cypher text, the statements of an event, batches, the schema and the store.
pub mod Cypher
pub mod Statements
pub mod Batch
pub mod Ingester
pub mod Schema
pub mod Graph
pub mod Query
