-- ===== src/Tunnel.antt =====
-- The tunnel supervisor of personal_mcp/tunnel_supervisor.py.
pub mod Supervisor
pub mod Observe
pub mod Events
pub mod Stopping
pub mod Releasing
pub mod Blocking
pub mod Backoff
mod Examples
