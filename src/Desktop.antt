-- ===== src/Desktop.antt =====
-- The lease of the foreground desktop, bf_automation/lease.py.
pub mod Lease
pub mod Exclusive
mod Examples
