-- ===== src/Policy.antt =====
-- The dispatch policy of personal_mcp/tool_policy.py.
pub mod Tools
mod Examples
