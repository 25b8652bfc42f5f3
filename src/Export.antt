-- ===== src/Export.antt =====
-- Export files, packages/core/docflow_core/exports.py: View is the order as every format sees it,
-- Csv the CSV file, Build the entry point that reads a file back before it returns it.
pub mod View
pub mod Csv
pub mod Build
mod Tests
