-- ===== src/Scheduler/Plan.antt =====
-- assistant_memory/scheduler/plan.py: the contract of a reasoner's output and the action list of
-- an accepted plan. The proofs stand in `Contract` and `Order`.
mod Decimal
mod Validation
mod Actions
pub mod Contract
pub mod Order
mod Examples
unfoldable pub use Decimal.*
unfoldable pub use Validation.*
unfoldable pub use Actions.*
