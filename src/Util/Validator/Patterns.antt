-- ===== src/Util/Validator/Patterns.antt =====
-- internal/util/sql_validator.go: the tables of blocked patterns, each with its source.
use Prim.Native.String.{String}
use mysql_mcp_server.Prelude.{List, [], ◌∷◌, ◌++◌, codes}
use mysql_mcp_server.Util.Regex.{Branch, Pattern, lit, boundary, space, spaces, start, letters}

abbrev pub pattern_of : String → List Branch → Pattern
pattern_of source branches = record { source = codes source; branches = branches }

-- `blockedPatterns`
abbrev pub blocked_patterns : List Pattern
blocked_patterns =
    pattern_of "(?i)\\bLOAD_FILE\\s*\\("
      ((boundary ∷ (letters (codes "LOAD_FILE") ++ (spaces ∷ lit b'(' ∷ []))) ∷ [])
    ∷ pattern_of "(?i)\\bINTO\\s+OUTFILE\\b" (
        (boundary
          ∷ (letters (codes "INTO")
              ++ (space ∷ spaces ∷ (letters (codes "OUTFILE") ++ (boundary ∷ [])))))
        ∷ [])
    ∷ pattern_of "(?i)\\bINTO\\s+DUMPFILE\\b" (
        (boundary
          ∷ (letters (codes "INTO")
              ++ (space ∷ spaces ∷ (letters (codes "DUMPFILE") ++ (boundary ∷ [])))))
        ∷ [])
    ∷ pattern_of "(?i)\\bLOAD\\s+DATA\\b" (
        (boundary
          ∷ (letters (codes "LOAD")
              ++ (space ∷ spaces ∷ (letters (codes "DATA") ++ (boundary ∷ [])))))
        ∷ [])
    ∷ pattern_of "(?i)^\\s*CREATE\\b"
        ((start ∷ spaces ∷ (letters (codes "CREATE") ++ (boundary ∷ []))) ∷ [])
    ∷ pattern_of "(?i)^\\s*ALTER\\b"
        ((start ∷ spaces ∷ (letters (codes "ALTER") ++ (boundary ∷ []))) ∷ [])
    ∷ pattern_of "(?i)^\\s*DROP\\b"
        ((start ∷ spaces ∷ (letters (codes "DROP") ++ (boundary ∷ []))) ∷ [])
    ∷ pattern_of "(?i)^\\s*TRUNCATE\\b"
        ((start ∷ spaces ∷ (letters (codes "TRUNCATE") ++ (boundary ∷ []))) ∷ [])
    ∷ pattern_of "(?i)^\\s*RENAME\\b"
        ((start ∷ spaces ∷ (letters (codes "RENAME") ++ (boundary ∷ []))) ∷ [])
    ∷ pattern_of "(?i)^\\s*INSERT\\b"
        ((start ∷ spaces ∷ (letters (codes "INSERT") ++ (boundary ∷ []))) ∷ [])
    ∷ pattern_of "(?i)^\\s*UPDATE\\b"
        ((start ∷ spaces ∷ (letters (codes "UPDATE") ++ (boundary ∷ []))) ∷ [])
    ∷ pattern_of "(?i)^\\s*DELETE\\b"
        ((start ∷ spaces ∷ (letters (codes "DELETE") ++ (boundary ∷ []))) ∷ [])
    ∷ pattern_of "(?i)^\\s*REPLACE\\b"
        ((start ∷ spaces ∷ (letters (codes "REPLACE") ++ (boundary ∷ []))) ∷ [])
    ∷ pattern_of "(?i)^\\s*GRANT\\b"
        ((start ∷ spaces ∷ (letters (codes "GRANT") ++ (boundary ∷ []))) ∷ [])
    ∷ pattern_of "(?i)^\\s*REVOKE\\b"
        ((start ∷ spaces ∷ (letters (codes "REVOKE") ++ (boundary ∷ []))) ∷ [])
    ∷ pattern_of "(?i)^\\s*SET\\s+(GLOBAL|SESSION|@@)" (
        (start ∷ spaces ∷ (letters (codes "SET") ++ (space ∷ spaces ∷ letters (codes "GLOBAL"))))
        ∷ (start ∷ spaces ∷ (letters (codes "SET") ++ (space ∷ spaces ∷ letters (codes "SESSION"))))
        ∷ (start ∷ spaces ∷ (letters (codes "SET") ++ (space ∷ spaces ∷ letters (codes "@@"))))
        ∷ [])
    ∷ pattern_of "(?i)^\\s*FLUSH\\b"
        ((start ∷ spaces ∷ (letters (codes "FLUSH") ++ (boundary ∷ []))) ∷ [])
    ∷ pattern_of "(?i)^\\s*RESET\\b"
        ((start ∷ spaces ∷ (letters (codes "RESET") ++ (boundary ∷ []))) ∷ [])
    ∷ pattern_of "(?i)^\\s*KILL\\b"
        ((start ∷ spaces ∷ (letters (codes "KILL") ++ (boundary ∷ []))) ∷ [])
    ∷ pattern_of "(?i)^\\s*SHUTDOWN\\b"
        ((start ∷ spaces ∷ (letters (codes "SHUTDOWN") ++ (boundary ∷ []))) ∷ [])
    ∷ pattern_of "(?i)^\\s*LOCK\\s+TABLES\\b" (
        (start
          ∷ spaces
          ∷ (letters (codes "LOCK")
              ++ (space ∷ spaces ∷ (letters (codes "TABLES") ++ (boundary ∷ [])))))
        ∷ [])
    ∷ pattern_of "(?i)\\bFOR\\s+UPDATE\\b" (
        (boundary
          ∷ (letters (codes "FOR")
              ++ (space ∷ spaces ∷ (letters (codes "UPDATE") ++ (boundary ∷ [])))))
        ∷ [])
    ∷ pattern_of "(?i)\\bFOR\\s+SHARE\\b" (
        (boundary
          ∷ (letters (codes "FOR")
              ++ (space ∷ spaces ∷ (letters (codes "SHARE") ++ (boundary ∷ [])))))
        ∷ [])
    ∷ pattern_of "(?i)\\bLOCK\\s+IN\\s+SHARE\\s+MODE\\b" (
        (boundary
          ∷ (letters (codes "LOCK")
              ++ (space
                  ∷ spaces
                  ∷ (letters (codes "IN")
                      ++ (space
                          ∷ spaces
                          ∷ (letters (codes "SHARE")
                              ++ (space
                                  ∷ spaces
                                  ∷ (letters (codes "MODE") ++ (boundary ∷ [])))))))))
        ∷ [])
    ∷ pattern_of "(?i)^\\s*UNLOCK\\s+TABLES\\b" (
        (start
          ∷ spaces
          ∷ (letters (codes "UNLOCK")
              ++ (space ∷ spaces ∷ (letters (codes "TABLES") ++ (boundary ∷ [])))))
        ∷ [])
    ∷ pattern_of "(?i)^\\s*START\\s+TRANSACTION\\b" (
        (start
          ∷ spaces
          ∷ (letters (codes "START")
              ++ (space ∷ spaces ∷ (letters (codes "TRANSACTION") ++ (boundary ∷ [])))))
        ∷ [])
    ∷ pattern_of "(?i)^\\s*BEGIN\\b"
        ((start ∷ spaces ∷ (letters (codes "BEGIN") ++ (boundary ∷ []))) ∷ [])
    ∷ pattern_of "(?i)^\\s*COMMIT\\b"
        ((start ∷ spaces ∷ (letters (codes "COMMIT") ++ (boundary ∷ []))) ∷ [])
    ∷ pattern_of "(?i)^\\s*ROLLBACK\\b"
        ((start ∷ spaces ∷ (letters (codes "ROLLBACK") ++ (boundary ∷ []))) ∷ [])
    ∷ pattern_of "(?i)^\\s*SAVEPOINT\\b"
        ((start ∷ spaces ∷ (letters (codes "SAVEPOINT") ++ (boundary ∷ []))) ∷ [])
    ∷ pattern_of "(?i)^\\s*PREPARE\\b"
        ((start ∷ spaces ∷ (letters (codes "PREPARE") ++ (boundary ∷ []))) ∷ [])
    ∷ pattern_of "(?i)^\\s*EXECUTE\\b"
        ((start ∷ spaces ∷ (letters (codes "EXECUTE") ++ (boundary ∷ []))) ∷ [])
    ∷ pattern_of "(?i)^\\s*DEALLOCATE\\b"
        ((start ∷ spaces ∷ (letters (codes "DEALLOCATE") ++ (boundary ∷ []))) ∷ [])
    ∷ pattern_of "(?i)^\\s*CALL\\b"
        ((start ∷ spaces ∷ (letters (codes "CALL") ++ (boundary ∷ []))) ∷ [])
    ∷ pattern_of "(?i)\\bSLEEP\\s*\\("
        ((boundary ∷ (letters (codes "SLEEP") ++ (spaces ∷ lit b'(' ∷ []))) ∷ [])
    ∷ pattern_of "(?i)\\bBENCHMARK\\s*\\("
        ((boundary ∷ (letters (codes "BENCHMARK") ++ (spaces ∷ lit b'(' ∷ []))) ∷ [])
    ∷ pattern_of "(?i)\\bGET_LOCK\\s*\\("
        ((boundary ∷ (letters (codes "GET_LOCK") ++ (spaces ∷ lit b'(' ∷ []))) ∷ [])
    ∷ pattern_of "(?i)\\bRELEASE_LOCK\\s*\\("
        ((boundary ∷ (letters (codes "RELEASE_LOCK") ++ (spaces ∷ lit b'(' ∷ []))) ∷ [])
    ∷ pattern_of "(?i)\\bIS_FREE_LOCK\\s*\\("
        ((boundary ∷ (letters (codes "IS_FREE_LOCK") ++ (spaces ∷ lit b'(' ∷ []))) ∷ [])
    ∷ pattern_of "(?i)\\bIS_USED_LOCK\\s*\\("
        ((boundary ∷ (letters (codes "IS_USED_LOCK") ++ (spaces ∷ lit b'(' ∷ []))) ∷ [])
    ∷ pattern_of "--" ((letters (codes "--")) ∷ [])
    ∷ pattern_of "/\\*" ((letters (codes "/*")) ∷ [])
    ∷ pattern_of "#" ((lit b'#' ∷ []) ∷ [])
    ∷ pattern_of "(?i)\\bMYSQL\\s*\\.\\b"
        ((boundary ∷ (letters (codes "MYSQL") ++ (spaces ∷ lit b'.' ∷ boundary ∷ []))) ∷ [])
    ∷ []

-- `systemReadSchemaPatterns`
abbrev pub system_read_schema_patterns : List Pattern
system_read_schema_patterns =
    pattern_of "(?i)\\bINFORMATION_SCHEMA\\s*\\.\\b" (
      (boundary ∷ (letters (codes "INFORMATION_SCHEMA") ++ (spaces ∷ lit b'.' ∷ boundary ∷ [])))
      ∷ [])
    ∷ pattern_of "(?i)\\bPERFORMANCE_SCHEMA\\s*\\.\\b" (
        (boundary ∷ (letters (codes "PERFORMANCE_SCHEMA") ++ (spaces ∷ lit b'.' ∷ boundary ∷ [])))
        ∷ [])
    ∷ pattern_of "(?i)\\bSYS\\s*\\.\\b"
        ((boundary ∷ (letters (codes "SYS") ++ (spaces ∷ lit b'.' ∷ boundary ∷ []))) ∷ [])
    ∷ []
