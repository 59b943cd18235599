-- ===== src/Parser.antt =====
-- internal/util/sql_parser.go: the layer of validation that stands on a grammar of SQL.
pub mod Syntax
pub mod Validate
pub mod Schemas
pub mod Limit
pub mod Tests
