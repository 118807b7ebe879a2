-- ===== src/Operations.antt =====
-- The operation journal of personal_mcp/operations.py.
pub mod Json
pub mod Journal
pub mod Receipts
pub mod Run
pub mod Answers
pub mod Keeping
pub mod Once
pub mod Capacity
pub mod Events
mod Examples
