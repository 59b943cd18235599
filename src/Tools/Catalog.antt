-- ===== src/Tools/Catalog.antt =====
-- cmd/mysql-mcp-server/tools.go: the tools that read the catalog, `toolListDatabases`,
-- `toolListTables` and `toolDescribeTable`, with `schemaExists` and `tableExists`. The answers of the
-- database to their queries are arguments.
pub mod Shown
use mysql_mcp_server.Prelude.{
  ℕ, zero, suc, Bool, true, false, not, ◌&&◌, ◌||◌, List, [], ◌∷◌, Option, none, some, Bytes, equal,
  trim_space, leb, if◌then◌else◌, Result, ok, err, ◌>>=◌, wrap,
}
use mysql_mcp_server.Config.Env.{half}
use mysql_mcp_server.Access.{Names, AccessError, database_allowed, require_allowed_database}
use mysql_mcp_server.Retry.{DbError}
use mysql_mcp_server.Tools.Scan.{check}

-- the rows of a query: what `Scan` gives for each, `Err` behind them, and `Close`
pub record Answer (A : Type 0) : Type 0 where
  pub scans : List (Result DbError A)
  pub iteration : Option DbError
  pub closing : Option DbError

pub data CatalogError : Type 0 where
  database_required table_required database_not_found table_not_found no_columns_found :
      CatalogError
  refused : AccessError → CatalogError
  query_failed scan_failed iteration_failed close_failed existence_failed : DbError → CatalogError

-- the loop of the three tools over their rows, with the number of entries so far; `maxRows` below
-- zero is a number from 2 ^ 63 on
unfoldable pub collect :
    {A B : Type 0} → ℕ → (A → Option B) → ℕ → List (Result DbError A) → Result CatalogError (List B)
collect max_rows entry count [] = ok []
collect max_rows entry count (err e ∷ rest) = err (scan_failed e)
collect max_rows entry count (ok a ∷ rest) = elim (entry a) [
  | none ↦ collect max_rows entry count rest
  | some b ↦
      if leb half max_rows || leb max_rows (suc count)
      then ok (b ∷ [])
      else (collect max_rows entry (suc count) rest >>= (λ later. ok (b ∷ later)))
]

-- the query, its rows, and the error behind them
unfoldable pub read_answer :
    {A B : Type 0}
    → ℕ
    → (A → Option B)
    → Result DbError (Answer A)
    → Result CatalogError (List B × Answer A)
unfolding collect
read_answer max_rows entry queried = wrap query_failed queried >>= (λ answer.
    collect max_rows entry 0 (answer.scans)
    >>= (λ out. check iteration_failed (answer.iteration) >>= (λ _. ok (out, answer))))

abbrev pub listed : Names → Bytes → Option Bytes
listed set name = if not (database_allowed set name) then none else some name

-- `toolListDatabases`
unfoldable pub tool_list_databases :
    Names → ℕ → Result DbError (Answer Bytes) → Result CatalogError (List Bytes)
unfolding read_answer database_allowed
tool_list_databases set max_rows queried =
    read_answer max_rows (listed set) queried >>= (λ out. ok (out.0))

-- a row of `information_schema.TABLES`, with what may be null
pub record TableRow : Type 0 where
  pub name : Bytes
  pub engine : Option Bytes
  pub table_rows : Option ℕ
  pub comment : Option Bytes

-- `TableInfo`
pub record TableInfo : Type 0 where
  pub name : Bytes
  pub engine : Bytes
  pub rows : Option ℕ
  pub comment : Bytes

-- `sql.NullString.String`
abbrev pub string_of : Option Bytes → Bytes
string_of none = []
string_of (some s) = s

abbrev pub table_info : TableRow → Option TableInfo
table_info r = some record {
  name = r.name;
  engine = string_of (r.engine);
  rows = r.table_rows;
  comment = string_of (r.comment);
}

-- what `QueryRowContext` and `Scan` give: a row, `sql.ErrNoRows`, or another error
pub data Found : Type 0 where
  found no_rows : Found
  lookup_failed : DbError → Found

-- `schemaExists` and `tableExists`
abbrev pub exists : Found → Result CatalogError Bool
exists found = ok true
exists no_rows = ok false
exists (lookup_failed e) = err (existence_failed e)

unfoldable pub check_database : Names → Bytes → Result CatalogError (Unit {0})
unfolding equal trim_space require_allowed_database
check_database set database =
    if equal (trim_space database) []
    then err database_required
    else check refused (require_allowed_database set database)

-- an empty list is an error if there is no such database
unfoldable pub check_tables :
    Found → List TableInfo × Answer TableRow → Result CatalogError (List TableInfo)
check_tables schema ([], answer) =
    check close_failed (answer.closing)
    >>= (λ _. exists schema >>= (λ there. if not there then err database_not_found else ok []))
check_tables schema (t ∷ ts, answer) = ok (t ∷ ts)

-- `toolListTables`
unfoldable pub tool_list_tables :
    Names
    → ℕ
    → Bytes
    → Result DbError (Answer TableRow)
    → Found
    → Result CatalogError (List TableInfo)
unfolding check_database read_answer check_tables
tool_list_tables set max_rows database queried schema =
    check_database set database
    >>= (λ _. read_answer max_rows table_info queried >>= (λ out. check_tables schema out))

-- a row of `information_schema.COLUMNS`: its eight columns, each of which may be null
pub record ColumnOf (T : Type 0) : Type 0 where
  pub name : T
  pub column_type : T
  pub nullable : T
  pub key : T
  pub column_default : T
  pub extra : T
  pub comment : T
  pub collation : T

abbrev pub ColumnRow : Type 0
ColumnRow = ColumnOf (Option Bytes)

-- `ColumnInfo`
abbrev pub ColumnInfo : Type 0
ColumnInfo = ColumnOf Bytes

abbrev pub column_info : ColumnRow → Option ColumnInfo
column_info r = some record {
  name = string_of (r.name);
  column_type = string_of (r.column_type);
  nullable = string_of (r.nullable);
  key = string_of (r.key);
  column_default = string_of (r.column_default);
  extra = string_of (r.extra);
  comment = string_of (r.comment);
  collation = string_of (r.collation);
}

-- no columns are an error, which depends on what is there
unfoldable pub check_columns :
    Found → Found → List ColumnInfo → Result CatalogError (List ColumnInfo)
check_columns table schema [] = exists table >>= (λ table_there.
    if table_there
    then err no_columns_found
    else (exists schema >>= (λ schema_there.
        if not schema_there then err database_not_found else err table_not_found)))
check_columns table schema (c ∷ cs) = ok (c ∷ cs)

unfoldable pub check_names : Names → Bytes → Bytes → Result CatalogError (Unit {0})
unfolding equal trim_space require_allowed_database
check_names set database table =
    if equal (trim_space database) []
    then err database_required
    else if equal (trim_space table) []
    then err table_required
    else check refused (require_allowed_database set database)

-- `toolDescribeTable`
unfoldable pub tool_describe_table :
    Names
    → ℕ
    → Bytes
    → Bytes
    → Result DbError (Answer ColumnRow)
    → Found
    → Found
    → Result CatalogError (List ColumnInfo)
unfolding check_names read_answer check_columns
tool_describe_table set max_rows database table queried table_found schema_found =
    check_names set database table >>= (λ _.
      read_answer max_rows column_info queried
      >>= (λ out. check_columns table_found schema_found (out.0)))
