-- ===== src/Tools/Catalog/Shown.antt =====
-- What the catalog tools of cmd/mysql-mcp-server/tools.go show.
use mysql_mcp_server.Prelude.{
  ◌≡◌, ◌∙◌, refl, subst, inl, inr, ℕ, zero, suc, ◌+◌, ◌<◌, Bool, true, false, not, ◌||◌, List, [],
  ◌∷◌, map, none, Bytes, arith, equal, trim_space, length, take, leb, if◌then◌else◌, Bool-cases,
  Result, ok, bind-eq-ok, ok-injective, guard-eq-ok,
}
use mysql_mcp_server.Config.Env.{half}
use mysql_mcp_server.Access.{
  Names, access_control_enabled, database_allowed, require_allowed_database,
}
use mysql_mcp_server.Retry.{DbError}
use mysql_mcp_server.Tools.Scan.{check}
use mysql_mcp_server.Tools.Query.Checked.{check-eq-ok, require-none}
use mysql_mcp_server.Tools.Catalog.{
  Answer, collect, read_answer, listed, tool_list_databases, TableRow, TableInfo, table_info, Found,
  found, no_rows, lookup_failed, exists, check_tables, tool_list_tables, ColumnRow, ColumnInfo,
  column_info, check_columns, check_names, check_database, tool_describe_table, close_failed,
  database_required, database_not_found, table_required, refused,
}

-- The databases that are allowed, in order.
abbrev pub allowed_of : Names → List Bytes → List Bytes
allowed_of set [] = []
allowed_of set (name ∷ names) =
    let rest = allowed_of set names in if database_allowed set name then name ∷ rest else rest

-- One step of the loop, for an allowed database.
collect-next :
    (set : Names) (max_rows count left : ℕ) (name : Bytes) (names : List Bytes)
    → database_allowed set name ≡ true
    → count + suc left ≡ max_rows
    → max_rows < half
    → ((k : ℕ)
        → suc count + suc k ≡ max_rows
        → collect max_rows (listed set) (suc count) (map ok names)
          ≡ ok (take (suc k) (allowed_of set names)))
    → collect max_rows (listed set) count (map ok (name ∷ names))
      ≡ ok (take (suc left) (allowed_of set (name ∷ names)))
unfolding collect
collect-next set max_rows count zero name names d e h later =
    let f : (leb half max_rows || leb max_rows (suc count)) ≡ true = ground arith in
    rw (collect, d, f) refl
collect-next set max_rows count (suc left) name names d e h later =
    let f : (leb half max_rows || leb max_rows (suc count)) ≡ false = ground arith in
    rw (collect, d, f, later left (omega arith)) refl

collect-listed :
    (set : Names) (max_rows count left : ℕ) (names : List Bytes)
    → count + suc left ≡ max_rows
    → max_rows < half
    → collect max_rows (listed set) count (map ok names)
      ≡ ok (take (suc left) (allowed_of set names))
unfolding collect
collect-listed set max_rows count left [] e h = refl
collect-listed set max_rows count left (name ∷ names) e h =
    elim (Bool-cases (database_allowed set name)) [
      | inr d ↦ rw (collect, d) (collect-listed set max_rows count left names e h)
      | inl d ↦
          collect-next set max_rows count left name names d e h
            (λ k f. collect-listed set max_rows (suc count) k names f h)
    ]

-- A complete answer: every row is read.
abbrev pub answer_of : {A : Type 0} → List A → Answer A
answer_of rows = record { scans = map ok rows; iteration = none; closing = none }

-- Of the schemas of the server, `toolListDatabases` shows the allowed ones, in order, up to `maxRows`,
-- which is positive.
pub tool_list_databases_lem :
    (set : Names) (max_rows : ℕ) (names : List Bytes)
    → 0 < max_rows
    → max_rows < half
    → tool_list_databases set max_rows (ok (answer_of names))
      ≡ ok (take max_rows (allowed_of set names))
unfolding tool_list_databases read_answer
tool_list_databases_lem set zero names p h = absurd (omega arith)
tool_list_databases_lem set (suc left) names p h =
    rw (collect-listed set (suc left) 0 left names (omega arith) h) refl

check_columns-some :
    (table schema : Found) (columns out : List ColumnInfo)
    → check_columns table schema columns ≡ ok out
    → 0 < length out
unfolding check_columns
check_columns-some found schema [] out h = absurd (cc)
check_columns-some no_rows found [] out h = absurd (cc)
check_columns-some no_rows no_rows [] out h = absurd (cc)
check_columns-some no_rows (lookup_failed e) [] out h = absurd (cc)
check_columns-some (lookup_failed e) schema [] out h = absurd (cc)
check_columns-some table schema (c ∷ cs) out h =
    subst (λ o. 0 < length o) (ok-injective h) (omega arith)

exists-found :
    (schema : Found) (there : Bool) → exists schema ≡ ok there → not there ≡ false → schema ≡ found
exists-found found there e n = refl
exists-found no_rows there e n = absurd (let k = ok-injective e in ground arith)
exists-found (lookup_failed d) there e n = absurd (cc)

check_tables-some :
    (schema : Found) (read : List TableInfo × Answer TableRow) (out : List TableInfo)
    → check_tables schema read ≡ ok out
    → out ≡ []
    → schema ≡ found
unfolding check_tables
check_tables-some schema (t ∷ ts, answer) out h e = absurd (let k = ok-injective h ∙ e in cc)
check_tables-some schema ([], answer) out h e =
    let (_, _, h1) = bind-eq-ok (check close_failed (answer.closing)) _ h in
    let (there, f, h2) = bind-eq-ok (exists schema) _ h1 in
    let (n, _) = guard-eq-ok (not there) database_not_found (ok []) h2 in
    exists-found schema there f n

-- A table is described only if both names are given, its database is allowed when there is an allow
-- list, and it has columns: for a table without any, the tool tells whether the table or the database
-- is missing.
pub tool_describe_table-ok :
    (set : Names) (max_rows : ℕ) (database table : Bytes)
    (queried : Result DbError (Answer ColumnRow)) (table_found schema_found : Found)
    (out : List ColumnInfo)
    → tool_describe_table set max_rows database table queried table_found schema_found ≡ ok out
    → (equal (trim_space database) [] ≡ false)
      × (equal (trim_space table) [] ≡ false)
      × (access_control_enabled set ≡ true → database_allowed set database ≡ true)
      × (0 < length out)
unfolding tool_describe_table check_names
tool_describe_table-ok set max_rows database table queried table_found schema_found out h =
    let (_, names, h1) = bind-eq-ok (check_names set database table) _ h in
    let (d, names1) = guard-eq-ok (equal (trim_space database) []) database_required _ names in
    let (t, allowed) = guard-eq-ok (equal (trim_space table) []) table_required _ names1 in
    let ((columns, answer), _, h2) = bind-eq-ok (read_answer max_rows column_info queried) _ h1 in
    (
      d,
      t,
      (λ on.
          require-none set database on
            (check-eq-ok refused (require_allowed_database set database) allowed)),
      check_columns-some table_found schema_found columns out h2,
    )

-- An empty list of tables is the answer only for a database that is there and, when there is an allow
-- list, allowed.
pub tool_list_tables-ok :
    (set : Names) (max_rows : ℕ) (database : Bytes) (queried : Result DbError (Answer TableRow))
    (schema : Found) (out : List TableInfo)
    → tool_list_tables set max_rows database queried schema ≡ ok out
    → (access_control_enabled set ≡ true → database_allowed set database ≡ true)
      × (out ≡ [] → schema ≡ found)
unfolding tool_list_tables check_database
tool_list_tables-ok set max_rows database queried schema out h =
    let (_, names, h1) = bind-eq-ok (check_database set database) _ h in
    let (_, allowed) = guard-eq-ok (equal (trim_space database) []) database_required _ names in
    let (read, _, h2) = bind-eq-ok (read_answer max_rows table_info queried) _ h1 in
    (
      (λ on.
          require-none set database on
            (check-eq-ok refused (require_allowed_database set database) allowed)),
      check_tables-some schema read out h2,
    )
