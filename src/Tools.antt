-- ===== src/Tools.antt =====
-- The tool handlers of cmd/mysql-mcp-server/tools.go.
pub mod Scan
pub mod Mask
pub mod Query
pub mod Catalog
pub mod Sessions
pub mod Tests
