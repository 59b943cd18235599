-- ===== src/Util/WhereClause.antt =====
-- internal/util/sql_validator.go: `ValidateWhereClause`.
pub mod Accepted
use mysql_mcp_server.Prelude.{
  ℕ, ◌+◌, Bool, true, false, not, List, [], ◌∷◌, ◌++◌, Option, none, some, Bytes, codes, equal,
  length, ltb, ◌==◌, if◌then◌else◌,
}
use mysql_mcp_server.Util.Literals.{strip_literals}
use mysql_mcp_server.Util.Regex.{Pattern, lit, boundary, spaces, hex, letters, match_string}
use mysql_mcp_server.Util.Validator.Patterns.{pattern_of}

-- `dangerousWherePatterns`: each pattern with its reason
abbrev pub dangerous_where_patterns : List (Pattern × Bytes)
dangerous_where_patterns =
    (pattern_of "(?i);\\s*" ((lit b';' ∷ spaces ∷ []) ∷ []), codes "semicolon (multi-statement)")
    ∷ (pattern_of "(?i)--" ((letters (codes "--")) ∷ []), codes "SQL comment")
    ∷ (pattern_of "(?i)/\\*" ((letters (codes "/*")) ∷ []), codes "SQL block comment")
    ∷ (
      pattern_of "(?i)\\bUNION\\b" ((boundary ∷ (letters (codes "UNION") ++ (boundary ∷ []))) ∷ []),
      codes "UNION keyword",
    )
    ∷ (
      pattern_of "(?i)\\bINTO\\b" ((boundary ∷ (letters (codes "INTO") ++ (boundary ∷ []))) ∷ []),
      codes "INTO keyword",
    )
    ∷ (
      pattern_of "(?i)\\bLOAD_FILE\\s*\\("
          ((boundary ∷ (letters (codes "LOAD_FILE") ++ (spaces ∷ lit b'(' ∷ []))) ∷ []),
      codes "LOAD_FILE function",
    )
    ∷ (
      pattern_of "(?i)\\bSLEEP\\s*\\("
          ((boundary ∷ (letters (codes "SLEEP") ++ (spaces ∷ lit b'(' ∷ []))) ∷ []),
      codes "SLEEP function",
    )
    ∷ (
      pattern_of "(?i)\\bBENCHMARK\\s*\\("
          ((boundary ∷ (letters (codes "BENCHMARK") ++ (spaces ∷ lit b'(' ∷ []))) ∷ []),
      codes "BENCHMARK function",
    )
    ∷ (
      pattern_of "(?i)\\bGET_LOCK\\s*\\("
          ((boundary ∷ (letters (codes "GET_LOCK") ++ (spaces ∷ lit b'(' ∷ []))) ∷ []),
      codes "GET_LOCK function",
    )
    ∷ (
      pattern_of "(?i)\\bRELEASE_LOCK\\s*\\("
          ((boundary ∷ (letters (codes "RELEASE_LOCK") ++ (spaces ∷ lit b'(' ∷ []))) ∷ []),
      codes "RELEASE_LOCK function",
    )
    ∷ (pattern_of "(?i)@@" ((letters (codes "@@")) ∷ []), codes "system variable access")
    ∷ (
      pattern_of "(?i)\\bINFORMATION_SCHEMA\\b"
          ((boundary ∷ (letters (codes "INFORMATION_SCHEMA") ++ (boundary ∷ []))) ∷ []),
      codes "INFORMATION_SCHEMA access",
    )
    ∷ (
      pattern_of "(?i)\\bPERFORMANCE_SCHEMA\\b"
          ((boundary ∷ (letters (codes "PERFORMANCE_SCHEMA") ++ (boundary ∷ []))) ∷ []),
      codes "PERFORMANCE_SCHEMA access",
    )
    ∷ (
      pattern_of "(?i)\\bMYSQL\\s*\\.\\b"
          ((boundary ∷ (letters (codes "MYSQL") ++ (spaces ∷ lit b'.' ∷ boundary ∷ []))) ∷ []),
      codes "mysql system database access",
    )
    ∷ (
      pattern_of "(?i)\\bSYS\\s*\\.\\b"
          ((boundary ∷ (letters (codes "SYS") ++ (spaces ∷ lit b'.' ∷ boundary ∷ []))) ∷ []),
      codes "sys database access",
    )
    ∷ (
      pattern_of "(?i)\\bEXEC\\s*\\("
          ((boundary ∷ (letters (codes "EXEC") ++ (spaces ∷ lit b'(' ∷ []))) ∷ []),
      codes "EXEC function",
    )
    ∷ (
      pattern_of "(?i)\\bSHUTDOWN\\b"
          ((boundary ∷ (letters (codes "SHUTDOWN") ++ (boundary ∷ []))) ∷ []),
      codes "SHUTDOWN command",
    )
    ∷ (
      pattern_of "(?i)0x[0-9a-fA-F]{10,}" (
          ((letters (codes "0X")
            ++ (hex ∷ hex ∷ hex ∷ hex ∷ hex ∷ hex ∷ hex ∷ hex ∷ hex ∷ hex ∷ [])))
          ∷ []),
      codes "long hex string (possible injection)",
    )
    ∷ []

pub data WhereError : Type 0 where
  forbidden : Bytes → WhereError
  unbalanced_parentheses too_long : WhereError

-- `strings.Count` for one byte
unfoldable pub count_byte : ℕ → Bytes → ℕ
count_byte c [] = 0
count_byte c (x ∷ s) = (if x == c then 1 else 0) + count_byte c s

-- the loop over the patterns
unfoldable pub first_reason : Bytes → List (Pattern × Bytes) → Option Bytes
unfolding match_string
first_reason scan [] = none
first_reason scan ((r, reason) ∷ rs) =
    if match_string r scan then some reason else first_reason scan rs

unfoldable pub where_verdict : Option Bytes → Bool → Bool → Option WhereError
where_verdict (some reason) balanced long = some (forbidden reason)
where_verdict none balanced long =
    if not balanced then some unbalanced_parentheses else if long then some too_long else none

unfoldable pub validate_where_clause : Bytes → Option WhereError
unfolding equal strip_literals count_byte first_reason where_verdict
validate_where_clause clause =
    if equal clause []
    then none
    else (let scan = strip_literals clause in
        where_verdict (first_reason scan dangerous_where_patterns)
          (count_byte b'(' scan == count_byte b')' scan) (ltb 1000 (length clause)))
