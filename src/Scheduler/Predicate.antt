-- ===== src/Scheduler/Predicate.antt =====
-- assistant_memory/scheduler/predicate.py: the trigger predicate of a job. `Grammar` is the static
-- validation, `Evaluation` the evaluator; the proofs stand in `Soundness`, `Reads` and `Boolean`.
mod Grammar
mod Evaluation
mod Shape
mod Clauses
pub mod Soundness
mod Named
pub mod Reads
pub mod Boolean
mod Examples
unfoldable pub use Grammar.*
unfoldable pub use Evaluation.*
