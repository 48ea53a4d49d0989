-- ===== src/Mcp.antt =====
-- apps/sirius-mcp/src/server.ts: the MCP server.
mod Tests
pub mod Fetch
pub mod Tools
