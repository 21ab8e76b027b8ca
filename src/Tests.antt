-- ===== src/Tests.antt =====
-- Tests: sample data, runs of the definitions on it, and the theorems at concrete inputs.
pub mod Samples
pub mod Core
pub mod Store
pub mod Daemon
pub mod Run
pub mod Commands
pub mod Pipeline
pub mod Sample
pub mod Esf
pub mod Collector
