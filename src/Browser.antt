-- ===== src/Browser.antt =====
-- The store of browser operations, bf_automation/browser/operation_store.py.
pub mod Store
pub mod Events
pub mod Keeping
pub mod Once
mod Examples
