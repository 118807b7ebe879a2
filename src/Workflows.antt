-- ===== src/Workflows.antt =====
-- The durable workflow registry of personal_mcp/workflows.py, a module per group of methods.
pub mod State
pub mod End
pub mod Idle
pub mod Begin
pub mod Activate
pub mod Use
pub mod Resume
pub mod Host
pub mod Views
pub mod Evolution
pub mod Lease
pub mod Found
pub mod Mirror
pub mod Validity
pub mod World
pub mod Schedules
pub mod Leases
pub mod Rotation
mod Examples
