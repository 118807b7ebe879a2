-- ===== src/Tasks.antt =====
-- The tasks of bf_automation/task_store.py.
pub mod State
pub mod Store
pub mod End
pub mod Claims
pub mod Events
pub mod Spec
pub mod Calls
pub mod Refines
pub mod Exclusive
pub mod Over
pub mod Ending
mod Examples
