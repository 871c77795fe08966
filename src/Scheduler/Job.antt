-- ===== src/Scheduler/Job.antt =====
-- assistant_memory/scheduler/job.py and repository.py: the typed view of a job's node, and the lease
-- by which a worker claims and finishes an occurrence.
mod Time
mod View
mod Lease
pub mod Claims
mod Examples
unfoldable pub use Time.*
unfoldable pub use View.*
unfoldable pub use Lease.*
