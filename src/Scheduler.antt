-- ===== src/Scheduler.antt =====
-- assistant_memory/scheduler: jobs that are nodes of the graph, their predicates, plans, and runs.
pub mod Predicate
pub mod Plan
pub mod Act
pub mod Job
pub mod Gather
pub mod Reasoning
pub mod Authoring
pub mod Runner
