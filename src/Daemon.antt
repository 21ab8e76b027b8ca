-- ===== src/Daemon.antt =====
-- crates/esgraphd: the writer thread of `esgraphd run`, the run of its threads together, and `replay`.
pub mod Writer
pub mod Run
pub mod Replay
pub mod Console
pub mod Commands
pub mod Pipeline
pub mod OneBatch
