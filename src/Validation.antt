-- ===== src/Validation.antt =====
-- Document numbers and the rules on them, packages/core/docflow_core/numbers.py and
-- packages/core/docflow_core/validation.py.
pub mod Numbers
pub mod Money
pub mod Sync
pub mod Fields
pub mod Document
pub mod Load
pub mod Evaluate
pub mod Required
mod RuleTests
mod LoadTests
mod Tests
