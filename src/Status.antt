-- ===== src/Status.antt =====
-- The status of a document, packages/core/docflow_core/document_status.py: the table of allowed
-- transitions, the row that the statements read and write, the compare-and-set operations, and
-- the theorems about them.
pub mod Table
pub mod Row
pub mod Ops
pub mod Claims
pub mod Moves
pub mod Lifetime
pub mod Claiming
mod Tests
