-- ===== src/Access.antt =====
-- assistant_memory/access.py: what of the graph an account sees and may write, through the spaces it
-- is a member of.
mod Reading
mod Subtree
pub mod Scopes
pub mod Permissions
pub mod Neighbors
pub mod Hidden
pub mod Isolation
pub mod Descent
mod Examples
unfoldable pub use Reading.*
unfoldable pub use Subtree.*
