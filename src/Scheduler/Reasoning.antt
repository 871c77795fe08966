-- ===== src/Scheduler/Reasoning.antt =====
-- assistant_memory/scheduler/reasoning.py: the backends that answer a job's context with a plan.
mod Fences
mod Backends
pub mod Wrapping
mod Examples
unfoldable pub use Fences.*
unfoldable pub use Backends.*
