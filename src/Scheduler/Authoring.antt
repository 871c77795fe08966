-- ===== src/Scheduler/Authoring.antt =====
-- assistant_memory/scheduler/authoring.py: the properties of a new job and its first run.
mod Building
pub mod Schedulable
mod Examples
unfoldable pub use Building.*
