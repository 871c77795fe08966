-- ===== src/Policy.antt =====
-- assistant_memory/policy.py: how strict the write policy is about an operation, and where its
-- decision is enforced.
mod Factors
pub mod Strictest
mod Examples
unfoldable pub use Factors.*
