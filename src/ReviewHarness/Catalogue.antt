-- ===== src/ReviewHarness/Catalogue.antt =====
-- review_harness/runcat.py: the files of a review run, and the state that is restored from them.
mod Files
mod Meta
mod Numbers
mod Ranges
mod Restoring
mod Checks
pub mod History
mod Writing
mod Repairing
mod Calls
mod Replacing
mod Trace
pub mod Naming
pub mod Records
mod Examples
unfoldable pub use Files.*
unfoldable pub use Meta.*
unfoldable pub use Numbers.*
unfoldable pub use Restoring.*
unfoldable pub use Writing.*
unfoldable pub use Repairing.*
unfoldable pub use Calls.*
