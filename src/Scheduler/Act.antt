-- ===== src/Scheduler/Act.antt =====
-- assistant_memory/scheduler/act.py: the actions of a plan are executed on the graph, within the
-- fence that the job declares.
mod Fence
mod Execution
pub mod Confined
pub mod Trace
mod Examples
unfoldable pub use Fence.*
unfoldable pub use Execution.*
