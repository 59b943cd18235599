-- ===== src/Parser/Validate.antt =====
-- internal/util/sql_parser.go: `ValidateSQLWithParser` and what it calls, and `ValidateSQLCombined`.
pub mod Parts
pub mod Allowed
use mysql_mcp_server.Prelude.{
  Bool, true, false, not, ◌&&◌, List, [], ◌∷◌, Option, none, some, Bytes, codes, equal, to_lower,
  trim_space, any, if◌then◌else◌,
}
use mysql_mcp_server.Util.Validator.{SqlError, validate_sql}
use mysql_mcp_server.Parser.Syntax.{
  Node, func_expr, subquery, star_expr, other_node, Nodes, no_nodes, nodes, Clause, missing, clause,
  Table, named, derived, join, paren_table, other_table, Tables, no_tables, tables, SelectStatement,
  select, union, paren_select, other_select, Statement, query, show, other_read, use_database,
  insert_into, update, delete_from, ddl, db_ddl, set_variable, other_admin, other_statement,
  Grammar,
}

-- The reasons of `ParserValidationError`.
pub data ParserError : Type 0 where
  empty_query unparsable multi_statement : ParserError
  insert_not_allowed update_not_allowed delete_not_allowed ddl_not_allowed : ParserError
  database_ddl_not_allowed set_not_allowed administrative : ParserError
  type_not_allowed unsupported_select : ParserError
  dangerous_function system_schema : Bytes → ParserError

-- `DangerousFunctions`
abbrev pub dangerous_functions : List Bytes
dangerous_functions =
    codes "sleep"
    ∷ codes "benchmark"
    ∷ codes "get_lock"
    ∷ codes "release_lock"
    ∷ codes "is_free_lock"
    ∷ codes "is_used_lock"
    ∷ codes "release_all_locks"
    ∷ codes "load_file"
    ∷ codes "sys_eval"
    ∷ codes "sys_exec"
    ∷ []

-- `systemReadSchemas` and `DangerousSchemas`
abbrev pub system_read_schemas : List Bytes
system_read_schemas = codes "information_schema" ∷ codes "performance_schema" ∷ codes "sys" ∷ []

abbrev pub dangerous_schemas : List Bytes
dangerous_schemas = codes "mysql" ∷ system_read_schemas

unfoldable pub is_dangerous_function : Bytes → Bool
unfolding equal to_lower
is_dangerous_function name = any (equal (to_lower name)) dangerous_functions

-- the test of `checkTableExpr`, with the package variable `allowSystemSchemas` as an argument
unfoldable pub is_blocked_schema : Bool → Bytes → Bool
unfolding equal to_lower
is_blocked_schema allow_system_schemas qualifier =
    not (equal (to_lower qualifier) [])
    && (any (equal (to_lower qualifier)) dangerous_schemas
        && not (allow_system_schemas && any (equal (to_lower qualifier)) system_read_schemas))

-- `if err := ...; err != nil { return err }`, and then the rest
abbrev pub or_error : {E : Type 0} → Option E → Option E → Option E
or_error (some e) rest = some e
or_error none rest = rest

unfoldable mutual
  -- the walk of `checkExprForDangerousFunctions`, with the error found so far
  pub walk_node : Bool → Node → Option ParserError → Option ParserError
  walk_node allow (func_expr name below) found =
      let rest = walk_nodes allow below found in
      if is_dangerous_function name then some (dangerous_function (to_lower name)) else rest
  walk_node allow (subquery stmt below) found =
      or_error (validate_select_statement allow stmt) (walk_nodes allow below found)
  walk_node allow (star_expr below) found = walk_nodes allow below found
  walk_node allow (other_node below) found = walk_nodes allow below found

  pub walk_nodes : Bool → Nodes → Option ParserError → Option ParserError
  walk_nodes allow no_nodes found = found
  walk_nodes allow (nodes n ns) found = walk_nodes allow ns (walk_node allow n found)

  -- `checkExprForDangerousFunctions` for each of a list
  pub check_exprs : Bool → Nodes → Option ParserError
  check_exprs allow no_nodes = none
  check_exprs allow (nodes n ns) = or_error (walk_node allow n none) (check_exprs allow ns)

  pub check_clause : Bool → Clause → Option ParserError
  check_clause allow missing = none
  check_clause allow (clause n) = walk_node allow n none

  -- `checkTableExpr`
  pub check_table_expr : Bool → Table → Option ParserError
  check_table_expr allow (named qualifier) =
      if is_blocked_schema allow qualifier then some (system_schema (to_lower qualifier)) else none
  check_table_expr allow (derived stmt) = validate_select_statement allow stmt
  check_table_expr allow (join l r on) =
      or_error (check_table_expr allow l)
        (or_error (check_table_expr allow r) (check_clause allow on))
  check_table_expr allow (paren_table ts) = check_table_exprs allow ts
  check_table_expr allow other_table = none

  pub check_table_exprs : Bool → Tables → Option ParserError
  check_table_exprs allow no_tables = none
  check_table_exprs allow (tables t ts) =
      or_error (check_table_expr allow t) (check_table_exprs allow ts)

  -- `checkSubqueries`
  pub check_subqueries : Bool → Table → Option ParserError
  check_subqueries allow (named qualifier) = none
  check_subqueries allow (derived stmt) = validate_select_statement allow stmt
  check_subqueries allow (join l r on) =
      or_error (check_subqueries allow l) (check_subqueries allow r)
  check_subqueries allow (paren_table ts) = check_all_subqueries allow ts
  check_subqueries allow other_table = none

  pub check_all_subqueries : Bool → Tables → Option ParserError
  check_all_subqueries allow no_tables = none
  check_all_subqueries allow (tables t ts) =
      or_error (check_subqueries allow t) (check_all_subqueries allow ts)

  -- `validateSelectStatement`, with `validateSelect` and `validateUnion`
  pub validate_select_statement : Bool → SelectStatement → Option ParserError
  validate_select_statement allow (select exprs from where_clause having group_by order_by limit) =
      or_error (check_exprs allow exprs) (
        or_error (check_table_exprs allow from)
          (or_error (check_clause allow where_clause) (check_all_subqueries allow from)))
  validate_select_statement allow (union l r order_by limit) =
      or_error (validate_select_statement allow l) (validate_select_statement allow r)
  validate_select_statement allow (paren_select stmt) = validate_select_statement allow stmt
  validate_select_statement allow other_select = some unsupported_select

-- `validateStatement`
unfoldable pub validate_statement : Bool → Statement → Option ParserError
unfolding validate_select_statement
validate_statement allow (query stmt) = validate_select_statement allow stmt
validate_statement allow (show kind on_table tables_db) = none
validate_statement allow other_read = none
validate_statement allow (use_database db) = none
validate_statement allow (insert_into qualifier) = some insert_not_allowed
validate_statement allow (update ts where_clause) = some update_not_allowed
validate_statement allow (delete_from ts where_clause) = some delete_not_allowed
validate_statement allow ddl = some ddl_not_allowed
validate_statement allow db_ddl = some database_ddl_not_allowed
validate_statement allow set_variable = some set_not_allowed
validate_statement allow other_admin = some administrative
validate_statement allow other_statement = some type_not_allowed

validate_parsed : Bool → Option Statement → Option ParserError
unfolding validate_statement
validate_parsed allow none = some unparsable
validate_parsed allow (some stmt) = validate_statement allow stmt

-- the pieces of the text: there is to be one
validate_pieces : Grammar → Bool → Option (List Bytes) → Option ParserError
unfolding validate_parsed
validate_pieces g allow none = some unparsable
validate_pieces g allow (some []) = some empty_query
validate_pieces g allow (some (piece ∷ [])) = validate_parsed allow (g.parse piece)
validate_pieces g allow (some (piece ∷ next ∷ rest)) = some multi_statement

-- `ValidateSQLWithParser`
unfoldable pub validate_sql_with_parser : Grammar → Bool → Bytes → Option ParserError
unfolding equal trim_space validate_pieces
validate_sql_with_parser g allow sql_text =
    if equal (trim_space sql_text) []
    then some empty_query
    else validate_pieces g allow (g.split (trim_space sql_text))

pub data CombinedError : Type 0 where
  by_parser : ParserError → CombinedError
  by_pattern : SqlError → CombinedError

abbrev pub map_error : {E F : Type 0} → (E → F) → Option E → Option F
map_error f none = none
map_error f (some e) = some (f e)

-- `ValidateSQLCombined`
unfoldable pub validate_sql_combined : Grammar → Bool → Bytes → Option CombinedError
unfolding validate_sql_with_parser validate_sql
validate_sql_combined g allow sql_text =
    or_error (map_error by_parser (validate_sql_with_parser g allow sql_text))
      (map_error by_pattern (validate_sql allow sql_text))
