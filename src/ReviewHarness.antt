-- ===== src/ReviewHarness.antt =====
-- review_harness: the guard of the critic's command, the gates at which the operator is asked, and the
-- catalogue of a run.
pub mod Guard
pub mod Gates
pub mod Catalogue
