-- ===== src/Lifecycle.antt =====
-- The life of a tenant, packages/core/docflow_core/lifecycle.py: cancelled, suspended by the sweep, billing
-- cancelled, taken back. The row of one tenant, its reminder jobs, and what is sent or called, in order.
-- Times are whole seconds; the payment provider's answers are given.
pub mod Row
pub mod Cancel
pub mod Suspend
pub mod Return
pub mod Sound
pub mod Steps
pub mod Billing
mod Tests
