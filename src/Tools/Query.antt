-- ===== src/Tools/Query.antt =====
-- cmd/mysql-mcp-server/tools.go: `toolRunQuery`, without its log, its audit log and its token counts.
pub mod Checked
pub mod Results
use mysql_mcp_server.Prelude.{
  ℕ, zero, suc, ◌+◌, ◌%◌, Bool, true, false, not, ◌&&◌, List, [], ◌∷◌, Option, none, some, Bytes,
  codes, equal, trim_space, ltb, leb, if◌then◌else◌, Result, ok, err, ◌>>=◌, wrap,
}
use mysql_mcp_server.Config.Env.{half, word, positive}
use mysql_mcp_server.Access.{
  Names, AccessError, access_control_enabled, require_allowed_database, require_referenced_schemas,
}
use mysql_mcp_server.Parser.Syntax.{Grammar}
use mysql_mcp_server.Parser.Validate.{CombinedError, validate_sql_combined}
use mysql_mcp_server.Parser.Schemas.{reading_of}
use mysql_mcp_server.Parser.Limit.{
  PaginationError, inject_limit, inject_limit_with_offset, has_select_star,
}
use mysql_mcp_server.Retry.{DbError, RetryConfig, Backoff, do_retry}
use mysql_mcp_server.Tools.Scan.{
  QueryResult, ScanError, invalid_database, no_connection, use_failed, query_failed, no_columns,
  row_failed, iteration_failed, close_failed, Server, check, run_query_scan,
}
use mysql_mcp_server.Tools.Mask.{mask_results}

-- `RunQueryInput`; an `int` below zero is a number from 2 ^ 63 on
pub record RunQueryInput : Type 0 where
  pub sql : Bytes
  pub max_rows : Option ℕ
  pub offset : Option ℕ
  pub database : Bytes

-- The package's settings, and the parser and the backoff of the packages that it calls.
pub record Settings : Type 0 where
  pub grammar : Grammar
  pub allow_system_schemas : Bool
  pub allowed_databases : Names
  pub max_rows : ℕ
  pub mask_columns : List Bytes
  pub backoff : Backoff DbError
  -- the error of the call's context behind the n-th run
  pub context_error : ℕ → Option DbError
  pub retry : RetryConfig

pub data RunError : Type 0 where
  sql_required database_required negative_offset no_row_limit : RunError
  not_allowed : AccessError → RunError
  not_valid : CombinedError → RunError
  not_paginated : PaginationError → RunError
  run_failed : DbError → RunError
  scan_failed : ScanError → RunError

-- What the handler has settled before it asks the database.
pub record Plan : Type 0 where
  pub final_sql : Bytes
  pub database : Bytes
  pub limit : ℕ
  pub paginated : Bool
  pub page_offset : ℕ
  pub has_star : Bool

unfoldable pub check_database : Settings → Bytes → Result RunError (Unit {0})
unfolding equal require_allowed_database
check_database s database =
    if not (access_control_enabled (s.allowed_databases))
    then ok tt
    else if equal database []
    then err database_required
    else check not_allowed (require_allowed_database (s.allowed_databases) database)

-- `limit`, from the input and `maxRows`
unfoldable pub smaller_limit : ℕ → Option ℕ → ℕ
smaller_limit max_rows none = max_rows
smaller_limit max_rows (some n) =
    if positive n && (positive max_rows && ltb n max_rows) then n else max_rows

unfoldable pub effective_limit : ℕ → Option ℕ → ℕ
unfolding smaller_limit
effective_limit max_rows asked =
    if leb half (smaller_limit max_rows asked) then 0 else smaller_limit max_rows asked

unfoldable pub plan_text : Settings → Bytes → Bytes → ℕ → Option ℕ → Result RunError Plan
unfolding inject_limit inject_limit_with_offset has_select_star
plan_text s sql_text database limit none = ok record {
  final_sql = inject_limit (s.grammar) sql_text limit;
  database = database;
  limit = limit;
  paginated = false;
  page_offset = 0;
  has_star = has_select_star (s.grammar) sql_text;
}
plan_text s sql_text database limit (some offset) =
    if leb half offset
    then err negative_offset
    else if leb limit 0
    then err no_row_limit
    else (wrap not_paginated
          (inject_limit_with_offset (s.grammar) sql_text ((limit + 1) % word) offset)
        >>= (λ final_sql. ok record {
          final_sql = final_sql;
          database = database;
          limit = limit;
          paginated = true;
          page_offset = offset;
          has_star = has_select_star (s.grammar) sql_text;
        }))

-- `toolRunQuery` up to its call of `dbretry.Do`
unfoldable pub plan_query : Settings → RunQueryInput → Result RunError Plan
unfolding equal trim_space check_database validate_sql_combined require_referenced_schemas plan_text
    effective_limit
plan_query s input =
    if equal (trim_space (input.sql)) []
    then err sql_required
    else (check_database s (trim_space (input.database)) >>= (λ _.
        check not_valid
          (validate_sql_combined (s.grammar) (s.allow_system_schemas) (trim_space (input.sql)))
        >>= (λ _.
            check not_allowed (
              require_referenced_schemas (reading_of (s.grammar)) (s.allowed_databases)
                (trim_space (input.sql)))
            >>= (λ _.
                plan_text s (trim_space (input.sql)) (trim_space (input.database))
                  (effective_limit (s.max_rows) (input.max_rows)) (input.offset)))))

-- an error of `QuoteIdent`, to `errors.Is` and `errors.As`
abbrev pub other_error : DbError
other_error = record {
  canceled = false;
  deadline_exceeded = false;
  net_error = false;
  invalid_conn = false;
  bad_conn = false;
  mysql_number = none;
}

-- the error that an error of `runQueryScan` wraps
abbrev pub cause : ScanError → DbError
cause (invalid_database e) = other_error
cause (no_connection e) = e
cause (use_failed e) = e
cause (query_failed e) = e
cause (no_columns e) = e
cause (row_failed e) = e
cause (iteration_failed e) = e
cause (close_failed e) = e

abbrev pub cause_of : Result ScanError QueryResult → Option DbError
cause_of (ok out) = none
cause_of (err e) = some (cause e)

unfoldable pub run_plan : (ℕ → Server) → Plan → ℕ → Result ScanError QueryResult
unfolding run_query_scan
run_plan servers plan n =
    run_query_scan (servers n) (plan.final_sql) (plan.database) (plan.limit) (plan.paginated)
      (plan.page_offset)

abbrev pub star_warning : Bytes
star_warning =
    codes
      "SELECT * retrieves all columns, which increases payload size. Specify only the columns you need for better performance."

-- the warning and the masking
unfoldable pub decorate : Settings → Plan → QueryResult → QueryResult
unfolding mask_results
decorate s plan out = record {
  columns = out.columns;
  rows = mask_results (out.columns) (out.rows) (s.mask_columns);
  truncated = out.truncated;
  has_more = out.has_more;
  next_offset = out.next_offset;
  warning = if plan.has_star then star_warning else out.warning;
}

-- what `Do` leaves in `out` and `err`, from its error and the index of its last run
unfoldable pub left_by_do : (ℕ → Server) → Plan → Option DbError × ℕ → Result RunError QueryResult
unfolding run_plan
left_by_do servers plan (some e, n) = err (run_failed e)
left_by_do servers plan (none, n) = wrap scan_failed (run_plan servers plan n)

-- the call of `dbretry.Do`
unfoldable pub run_with_retries : Settings → (ℕ → Server) → Plan → Result RunError QueryResult
unfolding run_plan do_retry left_by_do
run_with_retries s servers plan =
    left_by_do servers plan
      (do_retry (s.backoff) (s.retry) (s.context_error) (λ n. cause_of (run_plan servers plan n)))

-- `toolRunQuery`, where `servers n` is what the database answers in the n-th run
unfoldable pub tool_run_query :
    Settings → (ℕ → Server) → RunQueryInput → Result RunError QueryResult
unfolding plan_query run_with_retries decorate
tool_run_query s servers input =
    plan_query s input
    >>= (λ plan. run_with_retries s servers plan >>= (λ out. ok (decorate s plan out)))
