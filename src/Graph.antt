-- ===== src/Graph.antt =====
-- assistant_memory/models/graph.py and assistant_memory/repository/graph.py: the graph of versioned
-- nodes, edges and references, and the functions that change it. `Access` reads it for an account.
mod Tables
mod Nodes
mod Edges
mod Operations
pub mod Versions
pub mod Invariant
pub mod Cas
pub mod Written
pub mod Containment
pub mod Sharing
mod Examples
unfoldable pub use Tables.*
unfoldable pub use Nodes.*
unfoldable pub use Edges.*
unfoldable pub use Operations.*
