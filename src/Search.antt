-- ===== src/Search.antt =====
-- The search sessions of personal_mcp/search.py.
pub mod Sessions
pub mod Bounds
pub mod Paging
mod Examples
