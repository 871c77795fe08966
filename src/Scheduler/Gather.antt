-- ===== src/Scheduler/Gather.antt =====
-- assistant_memory/scheduler/gather.py: which gather steps a job may declare, and its budget.
mod Steps
mod Running
pub mod Contract
pub mod Budget
mod Examples
unfoldable pub use Steps.*
unfoldable pub use Running.*
