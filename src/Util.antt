-- ===== src/Util.antt =====
-- internal/util: identifiers, the literal scanner, the regular expressions, the SQL validators.
pub mod Identifiers
pub mod Literals
pub mod Regex
pub mod Validator
pub mod WhereClause
pub mod Columns
pub mod Tests
