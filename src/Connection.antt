-- ===== src/Connection.antt =====
-- cmd/mysql-mcp-server/connection.go: the connection manager, the MCP sessions' connections, and
-- the connection that a tool call uses.
pub mod Dial
pub mod Manager
pub mod Session
pub mod Call
pub mod AddTool
pub mod Tests
