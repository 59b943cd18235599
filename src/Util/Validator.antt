-- ===== src/Util/Validator.antt =====
-- internal/util/sql_validator.go: the blocked patterns and `ValidateSQL`.
pub mod Patterns
pub mod Verdict
pub mod Comments
pub mod Independence
use mysql_mcp_server.Prelude.{
  ℕ, Bool, true, false, not, List, [], ◌∷◌, Option, none, some, Bytes, codes, equal, to_upper,
  has_prefix, contains, contains_byte, trim_right, trim_space, any, if◌then◌else◌,
}
use mysql_mcp_server.Util.Literals.{strip_literals}
use mysql_mcp_server.Util.Regex.{Pattern, match_string}
use Patterns.{blocked_patterns, system_read_schema_patterns}

-- `SQLValidationError`; a blocked pattern carries its source.
pub data SqlError : Type 0 where
  empty_query multi_statement not_read_only : SqlError
  blocked : Bytes → SqlError

abbrev pub allowed_prefixes : List Bytes
allowed_prefixes =
    codes "SELECT" ∷ codes "SHOW" ∷ codes "DESCRIBE" ∷ codes "DESC" ∷ codes "EXPLAIN" ∷ []

-- the cutset "; \t\n\r"
unfoldable pub is_trailing : ℕ → Bool
unfolding contains_byte
is_trailing c = contains_byte (b';' ∷ b' ' ∷ 9 ∷ 10 ∷ 13 ∷ []) c

-- A pattern anchored at the start is run on the text, any other on the scan without literals.
unfoldable pub target : Pattern → Bytes → Bytes → Bytes
unfolding contains
target r s scan = if not (contains r.source (codes "^")) then scan else s

-- the loop over the blocked patterns: the first that matches
unfoldable pub first_match : (Pattern → Bytes) → List Pattern → Option Bytes
unfolding match_string
first_match on [] = none
first_match on (r ∷ rs) = if match_string r (on r) then some r.source else first_match on rs

-- The order in which the checks answer; `none` is a nil error.
unfoldable pub verdict : Bool → Option Bytes → Option Bytes → Bool → Option SqlError
verdict multi found system reads = if multi then some multi_statement else elim found [
  | some source ↦ some (blocked source)
  | none ↦ elim system [
    | some source ↦ some (blocked source)
    | none ↦ if reads then none else some not_read_only
  ]
]

-- The checks behind the test for an empty query, on the trimmed text and its scan.
unfoldable pub check_statement : Bool → Bytes → Bytes → Option SqlError
unfolding verdict first_match target is_trailing trim_right contains_byte to_upper has_prefix
check_statement allow_system_schemas s scan =
    verdict (contains_byte (trim_right is_trailing scan) b';')
      (first_match (λ r. target r s scan) blocked_patterns)
      (first_match (λ r. scan)
        (if not allow_system_schemas then system_read_schema_patterns else []))
      (any (λ prefix. has_prefix (to_upper s) prefix) allowed_prefixes)

-- `ValidateSQL`, with the package variable `allowSystemSchemas` as an argument
unfoldable pub validate_sql : Bool → Bytes → Option SqlError
unfolding check_statement trim_space equal strip_literals
validate_sql allow_system_schemas sql_text =
    let s = trim_space sql_text in
    if equal s []
    then some empty_query
    else check_statement allow_system_schemas s (strip_literals s)
