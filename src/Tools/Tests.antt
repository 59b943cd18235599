-- ===== src/Tools/Tests.antt =====
-- The theorems on the tools at concrete inputs.
use mysql_mcp_server.Prelude.{
  ◌≡◌, refl, ℕ, ◌≤◌, true, false, List, [], ◌∷◌, map, none, some, arith, Bytes, codes, equal,
  length, take, drop, trim_space, if◌then◌else◌, Result, ok, ok-injective, subst, ap, suc,
}
use mysql_mcp_server.Access.{allowed_database_set}
use mysql_mcp_server.Parser.Syntax.{
  star_expr, no_nodes, nodes, missing, named, no_tables, tables, select, Statement, query, Grammar,
}
use mysql_mcp_server.Parser.Validate.{is_blocked_schema}
use mysql_mcp_server.Parser.Schemas.{
  show_enumerates_all_schemas_in_query, referenced_schema_qualifiers,
}
use mysql_mcp_server.Config.Env.{digits, positive}
use mysql_mcp_server.Parser.Limit.Printed.{digits-decimal, inject_limit_with_offset-inject_limit}
use mysql_mcp_server.Parser.Limit.{inject_limit, inject_limit_with_offset}
use mysql_mcp_server.Retry.{DbError, default_config}
use mysql_mcp_server.Retry.Eager.{eager}
use mysql_mcp_server.Access.{require_allowed_database}
use mysql_mcp_server.Config.Types.{ConnectionConfig}
use mysql_mcp_server.Connection.Manager.{Manager, list_connections}
use mysql_mcp_server.Connection.Session.{new_session}
use mysql_mcp_server.Tools.Catalog.{
  tool_list_databases, found, tool_list_tables, ColumnRow, ColumnInfo, tool_describe_table,
}
use mysql_mcp_server.Tools.Catalog.Shown.{allowed_of, answer_of, tool_list_databases_lem}
use mysql_mcp_server.Tools.Sessions.{tool_list_connections}
use mysql_mcp_server.Tools.Sessions.Hidden.{
  dsns, dsns_of, visible_configs, tool_list_connections-dsns,
}
use mysql_mcp_server.Tools.Scan.{
  DriverValue, nil, byte_slice, Cursor, Server, QueryResult, use_statements, execute_all,
}
use mysql_mcp_server.Tools.Scan.Pages.{normalize_row, cursor_of, Serves, read_pages, read_pages_lem}
use mysql_mcp_server.Tools.Mask.{is_masked_at, cell_at}
use mysql_mcp_server.Tools.Query.{RunQueryInput, Settings, effective_limit, tool_run_query}
use mysql_mcp_server.Tools.Query.Results.{
  hidden, tool_run_query-hidden, tool_run_query-not_truncated,
}

abbrev text : Bytes
text = codes "SELECT * FROM shop.users"

abbrev statement : Statement
statement = query (
    select (nodes (star_expr no_nodes) no_nodes) (tables (named (codes "shop")) no_tables) missing
      missing no_nodes no_nodes false)

abbrev grammar : Grammar
grammar = record {
  split = λ t. some (t ∷ []);
  parse = λ t. if equal t text then some statement else none;
}

abbrev settings : Settings
settings = record {
  grammar = grammar;
  allow_system_schemas = false;
  allowed_databases = allowed_database_set (codes "shop" ∷ []);
  max_rows = 2;
  mask_columns = codes "pass" ∷ [];
  backoff = eager;
  context_error = λ n. none;
  retry = default_config;
}

abbrev input : RunQueryInput
input = record { sql = text; max_rows = none; offset = none; database = codes "shop" }

abbrev columns : List Bytes
columns = codes "name" ∷ codes "Password" ∷ []

abbrev table : List (List DriverValue)
table =
    (byte_slice (codes "ann") ∷ byte_slice (codes "x") ∷ [])
    ∷ (byte_slice (codes "bob") ∷ nil ∷ [])
    ∷ (byte_slice (codes "eve") ∷ byte_slice (codes "y") ∷ [])
    ∷ []

-- A server that gives the rows of the table, whatever it is asked, up to a number.
abbrev server_of : ℕ → Server
server_of n = record {
  connection = none;
  execute = λ s. none;
  answer = λ selected t. ok (cursor_of columns (take n table));
}

-- The third row is left out.
run : (out : QueryResult) × (tool_run_query settings (λ n. server_of 3) input ≡ ok out)
unfolding tool_run_query equal allowed_database_set is_blocked_schema
    show_enumerates_all_schemas_in_query referenced_schema_qualifiers
run = (_, refl)

tool_run_query-hidden_example :
    (length (run.0.rows) ≤ 2)
    × ((j i : ℕ)
        → is_masked_at (codes "pass" ∷ []) (run.0.columns) i ≡ true
        → hidden (cell_at (run.0.rows) j i) ≡ true)
tool_run_query-hidden_example = tool_run_query-hidden settings (λ n. server_of 3) input run.0 run.1

-- A server that keeps to the LIMIT.
limited : (out : QueryResult) × (tool_run_query settings (λ n. server_of 2) input ≡ ok out)
unfolding tool_run_query equal allowed_database_set is_blocked_schema
    show_enumerates_all_schemas_in_query referenced_schema_qualifiers
limited = (_, refl)

parsed : grammar.parse (trim_space (trim_space text)) ≡ some statement
unfolding equal trim_space
parsed = refl

positive_limit : positive (effective_limit 2 none) ≡ true
unfolding effective_limit
positive_limit = refl

two_rows :
    (cursor : Cursor)
    → ◌≡◌ {A = Result DbError Cursor} (ok (cursor_of columns (take 2 table))) (ok cursor)
    → length (cursor.scans) ≤ effective_limit 2 none
unfolding effective_limit
two_rows cursor e = subst (λ (c : Cursor). length (c.scans) ≤ 2) (ok-injective e) (omega arith)

tool_run_query-not_truncated_example : limited.0.truncated ≡ false
tool_run_query-not_truncated_example =
    tool_run_query-not_truncated settings (λ n. server_of 2) input limited.0 statement refl parsed
      refl positive_limit (λ n selected cursor e. two_rows cursor e) limited.1

-- A server that reads the OFFSET at the end of the one text that it is asked.
abbrev asked : Bytes
asked = codes "SELECT * FROM shop.users LIMIT 3 OFFSET "

abbrev offset_of : Bytes → ℕ
offset_of t = elim (digits 0 (drop 40 t)) [ none ↦ 0 | some n ↦ n ]

abbrev paging : Server
paging = record {
  connection = none;
  execute = λ s. none;
  answer = λ selected t. ok (cursor_of columns (take 3 (drop (offset_of t) table)));
}

paging_answer :
    (offset : ℕ) (t : Bytes)
    → inject_limit_with_offset grammar text 3 offset ≡ ok t
    → paging.answer [] t ≡ ok (cursor_of columns (take 3 (drop offset table)))
unfolding inject_limit equal
paging_answer offset t e =
    let (f, l) = inject_limit_with_offset-inject_limit grammar text t 3 offset refl e in
    rw f (
      ap (λ o. ok (cursor_of columns (take 3 (drop (elim o [ none ↦ 0 | some n ↦ n ]) table))))
        (digits-decimal offset l))

serves : Serves grammar paging text [] 2 columns table
unfolding use_statements execute_all
serves = record {
  connected = refl;
  selected = [];
  selects = refl;
  executes = refl;
  answers = paging_answer;
}

parsed_once : grammar.parse (trim_space text) ≡ some statement
unfolding equal trim_space
parsed_once = refl

read_pages_lem_example :
    read_pages grammar paging text [] 2 (suc (length table)) 0 ≡ some (map normalize_row table)
read_pages_lem_example =
    read_pages_lem grammar paging text [] 2 columns table statement serves parsed_once refl
      (omega arith) (omega arith)

tool_list_databases_lem_example :
    tool_list_databases
      (allowed_database_set (codes "shop" ∷ codes "crm" ∷ []))
      1
      (ok (answer_of (codes "hr" ∷ codes "Shop" ∷ codes "crm" ∷ [])))
    ≡ ok (
        take 1 (
          allowed_of
            (allowed_database_set (codes "shop" ∷ codes "crm" ∷ []))
            (codes "hr" ∷ codes "Shop" ∷ codes "crm" ∷ [])))
tool_list_databases_lem_example =
    tool_list_databases_lem (allowed_database_set (codes "shop" ∷ codes "crm" ∷ [])) 1
      (codes "hr" ∷ codes "Shop" ∷ codes "crm" ∷ []) (omega arith) (omega arith)

abbrev id_row : ColumnRow
id_row = record {
  name = some (codes "id");
  column_type = some (codes "int");
  nullable = some (codes "NO");
  key = some (codes "PRI");
  column_default = none;
  extra = none;
  comment = none;
  collation = none;
}

described :
    (out : List ColumnInfo) × (tool_describe_table
        (allowed_database_set (codes "shop" ∷ []))
        10
        (codes "shop")
        (codes "users")
        (ok (answer_of (id_row ∷ [])))
        found
        found
      ≡ ok out)
unfolding tool_describe_table equal trim_space allowed_database_set require_allowed_database
described = (_, refl)

no_tables_there :
    tool_list_tables
      (allowed_database_set (codes "shop" ∷ []))
      10
      (codes "shop")
      (ok (answer_of []))
      found
    ≡ ok []
unfolding tool_list_tables equal trim_space allowed_database_set require_allowed_database
no_tables_there = refl

-- A manager with a connection of a session.
abbrev own_config : ConnectionConfig
own_config = record {
  name = codes "session/ab12/mine";
  dsn = codes "app:pw@tcp(db:3306)/shop";
  description = [];
  read_only = false;
  ssl = [];
  ssh = none;
}

abbrev managing : Manager
managing = record {
  connections = (codes "session/ab12/mine", 1) ∷ [];
  clients = [];
  configs = (codes "session/ab12/mine", own_config) ∷ [];
  server_types = [];
  tool_packs = [];
  active_conn = codes "main";
  tunnel_closers = [];
  pending_adds = [];
  closed = [];
}

tool_list_connections-dsns_example :
    dsns (
      (tool_list_connections managing
        (record { session = some (new_session (codes "cd34")); pin = none })).connections)
    ≡ dsns_of (visible_configs (some (new_session (codes "cd34"))) (list_connections managing))
tool_list_connections-dsns_example =
    tool_list_connections-dsns managing
      (record { session = some (new_session (codes "cd34")); pin = none })
