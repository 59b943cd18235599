-- ===== src/Tools/Scan.antt =====
-- cmd/mysql-mcp-server/tools.go: `scanAndNormalizeRow` and `runQueryScan`, with `NormalizeValue` of
-- internal/util/identifiers.go. The database is an argument: what database/sql answers.
pub mod Rows
pub mod Pages
use mysql_mcp_server.Prelude.{
  ℕ, suc, ◌+◌, ◌%◌, Bool, true, false, List, [], ◌∷◌, ◌++◌, map, Option, none, some, Bytes, codes,
  equal, ltb, if◌then◌else◌, Result, ok, err, ◌>>=◌, wrap,
}
use mysql_mcp_server.Config.Env.{word}
use mysql_mcp_server.Util.Identifiers.{IdentError, quote_ident}
use mysql_mcp_server.Retry.{DbError}

-- a value as the driver gives it: nil, a byte slice, or another, by its JSON text
pub data DriverValue : Type 0 where
  nil : DriverValue
  byte_slice other_value : Bytes → DriverValue

pub data Cell : Type 0 where
  null : Cell
  text json : Bytes → Cell

abbrev pub Row : Type 0
Row = List Cell

-- `NormalizeValue`
abbrev pub normalize_value : DriverValue → Cell
normalize_value nil = null
normalize_value (byte_slice s) = text s
normalize_value (other_value s) = json s

-- `sql.Rows`: the columns, what each `Next` and `Scan` gives, `Err` behind the loop, and `Close`
pub record Cursor : Type 0 where
  pub columns : Result DbError (List Bytes)
  pub scans : List (Result DbError (List DriverValue))
  pub iteration : Option DbError
  pub closing : Option DbError

-- `db.Conn`, `conn.ExecContext`, and `conn.QueryContext` behind the statements that were executed
pub record Server : Type 0 where
  pub connection : Option DbError
  pub execute : Bytes → Option DbError
  pub answer : List Bytes → Bytes → Result DbError Cursor

pub record QueryResult : Type 0 where
  pub columns : List Bytes
  pub rows : List Row
  pub truncated : Bool
  pub has_more : Bool
  pub next_offset : Option ℕ
  pub warning : Bytes

pub data ScanError : Type 0 where
  invalid_database : IdentError → ScanError
  no_connection use_failed query_failed no_columns : DbError → ScanError
  row_failed iteration_failed close_failed : DbError → ScanError

-- `if err := ...; err != nil { return ... }`
abbrev pub check : {E F : Type 0} → (E → F) → Option E → Result F (Unit {0})
check f none = ok tt
check f (some e) = err (f e)

-- how the loop over the rows ends
pub data Ending : Type 0 where
  exhausted more cut : Ending

-- `scanAndNormalizeRow`
abbrev pub scan_and_normalize_row : Result DbError (List DriverValue) → Result ScanError Row
scan_and_normalize_row (ok values) = ok (map normalize_value values)
scan_and_normalize_row (err e) = err (row_failed e)

abbrev pub put : Row → List Row × Ending → List Row × Ending
put row (rows, ending) = (row ∷ rows, ending)

-- the loop, with the number of rows so far
unfoldable pub scan_loop :
    ℕ → Bool → ℕ → List (Result DbError (List DriverValue)) → Result ScanError (List Row × Ending)
scan_loop limit paginated count [] = ok ([], exhausted)
scan_loop limit paginated count (next ∷ rest) =
    let tail = scan_loop limit paginated (suc count) rest in
    scan_and_normalize_row next >>= (λ row.
      if ltb count limit
      then (tail >>= (λ taken. ok (put row taken)))
      else ok ([], if paginated then more else cut))

-- what stands behind the loop; `cut` has closed the rows by itself
unfoldable pub finish : Cursor → Ending → Result ScanError (Unit {0})
finish cursor cut = check close_failed (cursor.closing)
finish cursor exhausted =
    check iteration_failed (cursor.iteration) >>= (λ _. check close_failed (cursor.closing))
finish cursor more =
    check iteration_failed (cursor.iteration) >>= (λ _. check close_failed (cursor.closing))

abbrev pub is_cut : Ending → Bool
is_cut cut = true
is_cut _ = false

abbrev pub is_more : Ending → Bool
is_more more = true
is_more _ = false

unfoldable pub result : List Bytes → ℕ → ℕ → List Row × Ending → QueryResult
result columns limit page_offset (rows, ending) = record {
  columns = columns;
  rows = rows;
  truncated = is_cut ending;
  has_more = is_more ending;
  next_offset = if is_more ending then some ((page_offset + limit) % word) else none;
  warning = [];
}

-- the statement `USE` for a database, if one is given
unfoldable pub use_statements : Bytes → Result ScanError (List Bytes)
unfolding equal quote_ident
use_statements database =
    if equal database []
    then ok []
    else (wrap invalid_database (quote_ident database)
        >>= (λ quoted. ok ((codes "USE " ++ quoted) ∷ [])))

unfoldable pub execute_all : Server → List Bytes → Result ScanError (Unit {0})
execute_all server [] = ok tt
execute_all server (s ∷ rest) =
    check use_failed (server.execute s) >>= (λ _. execute_all server rest)

unfoldable pub read_cursor : Cursor → ℕ → Bool → ℕ → Result ScanError QueryResult
unfolding scan_loop finish result
read_cursor cursor limit paginated page_offset = wrap no_columns (cursor.columns) >>= (λ columns.
    scan_loop limit paginated 0 (cursor.scans)
    >>= (λ taken. finish cursor (taken.1) >>= (λ _. ok (result columns limit page_offset taken))))

-- `runQueryScan`
unfoldable pub run_query_scan : Server → Bytes → Bytes → ℕ → Bool → ℕ → Result ScanError QueryResult
unfolding use_statements execute_all read_cursor
run_query_scan server final_sql database limit paginated page_offset =
    check no_connection (server.connection) >>= (λ _. use_statements database >>= (λ selected.
      execute_all server selected >>= (λ _.
        wrap query_failed (server.answer selected final_sql)
        >>= (λ cursor. read_cursor cursor limit paginated page_offset))))
