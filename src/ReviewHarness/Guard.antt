-- ===== src/ReviewHarness/Guard.antt =====
-- review_harness/readonly_guard.py: which commands may start a critic, and which output of one counts.
mod Argv
mod Output
pub mod Attestation
pub mod Grammar
mod Parsing
pub mod Commands
mod Examples
unfoldable pub use Argv.*
unfoldable pub use Output.*
