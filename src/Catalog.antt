-- ===== src/Catalog.antt =====
-- foresee/catalog.py: snapshots and their simulation, plan validation, and the transaction that
-- commits a plan to a target.
pub mod Snapshot
pub mod Plan
pub mod Target
pub mod Request
pub mod Commit
pub mod Prices
pub mod Tests
