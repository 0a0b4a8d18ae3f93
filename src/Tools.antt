-- ===== src/Tools.antt =====
-- The MCP tools (internal/tools).
pub mod Guard
mod Tests
