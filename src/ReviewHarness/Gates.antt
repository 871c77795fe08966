-- ===== src/ReviewHarness/Gates.antt =====
-- review_harness/gates.py: the reading of the operator's word, and the questions that ask for it.
mod Words
mod Asking
pub mod Reading
pub mod Answers
mod Examples
unfoldable pub use Words.*
unfoldable pub use Asking.*
