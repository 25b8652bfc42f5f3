-- ===== src/Matching.antt =====
-- Catalog matching, packages/core/docflow_core/matching.py: the comparison keys, the catalog, the
-- scored candidates and their fast scan, and the decision on one line.
pub mod Keys
pub mod Measures
pub mod Catalog
pub mod Tokens
pub mod Candidates
pub mod Resolve
pub mod Rules
pub mod Pass
pub mod Confirm
mod Tests
