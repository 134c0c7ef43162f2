-- ===== src/Operations.antt =====
-- The operations of a gateway: the durable rows of store.py, and operations.py, which moves them on.
pub mod Rows
pub mod History
pub mod Outcomes
pub mod Calls
pub mod During
pub mod Completion
pub mod Gate
pub mod Exclusion
pub mod Invariant
mod Tests
