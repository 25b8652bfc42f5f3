-- ===== src/Sweep.antt =====
-- The sweep of one tenant, packages/core/docflow_core/stuck_documents.py: what a crash left behind is
-- queued again, waits again or is failed. The session shows the rows of the tenant; `now()` is one
-- time for the whole transaction. The calls that write to other tables are a list of effects, in
-- their order.
pub mod Tables
pub mod Visit
pub mod Run
pub mod Rows
pub mod Loop
pub mod Settles
pub mod Promise
mod Tests
