-- ===== src/Proposals.antt =====
-- assistant_memory/proposals.py: the order in which a batch of staged changes is applied, and what
-- each of them does to the graph once a human has approved it.
mod Staged
mod Ordering
mod Applying
mod Emitting
pub mod Batches
pub mod Order
pub mod Cycles
pub mod Tokens
pub mod Parents
mod Examples
unfoldable pub use Staged.*
unfoldable pub use Ordering.*
unfoldable pub use Applying.*
