-- ===== src/Scheduler/Runner.antt =====
-- assistant_memory/scheduler/runner.py: what happens to a job that is due, and one pass over all of
-- them. The backend that reasons is a parameter, as are the read tools of a gather.
mod Summary
mod Execution
mod Processing
pub mod Finishing
pub mod Containment
mod Handlers
pub mod Endings
mod Examples
unfoldable pub use Summary.*
unfoldable pub use Execution.*
unfoldable pub use Processing.*
