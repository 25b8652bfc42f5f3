-- ===== src/Dispatch.antt =====
-- The dispatcher, packages/core/docflow_core/dispatch.py: whose document goes to the queue next.
pub mod Choose
pub mod Pass
pub mod Passes
pub mod Order
pub mod Reading
pub mod Sends
pub mod Cap
pub mod Turns
pub mod Slots
pub mod Promise
mod Tests
