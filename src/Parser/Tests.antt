-- ===== src/Parser/Tests.antt =====
-- The theorems on the parser layer at concrete inputs.
use mysql_mcp_server.Prelude.{
  ◌≡◌, ◌↔◌, refl, true, false, [], ◌∷◌, none, some, Bytes, codes, equal, to_lower, trim_space, All,
  if◌then◌else◌, ok,
}
use mysql_mcp_server.Access.{
  Names, access_control_enabled, allowed_database_set, database_allowed, require_referenced_schemas,
}
use mysql_mcp_server.Parser.Syntax.{
  func_expr, other_node, subquery, no_nodes, nodes, missing, clause, named, no_tables, tables,
  SelectStatement, select, query, Grammar,
}
use mysql_mcp_server.Parser.Validate.{
  validate_sql_with_parser, validate_select_statement, is_blocked_schema,
}
use mysql_mcp_server.Parser.Validate.Allowed.{ReadsOnly, validate_sql_with_parser-none_iff}
use mysql_mcp_server.Parser.Schemas.{
  strip_outer_backticks, show_enumerates_all_schemas_in_query, referenced_schema_qualifiers,
  reading_of,
}
use mysql_mcp_server.Parser.Schemas.Backticks.{Peels, strip_outer_backticks-Peels}
use mysql_mcp_server.Parser.Schemas.Mentions.{mentioned}
use mysql_mcp_server.Parser.Schemas.Enforced.{require_referenced_schemas-mentioned}
use mysql_mcp_server.Parser.Limit.{inject_limit_with_offset}

abbrev text : Bytes
text = codes "SELECT MAX(x) FROM Shop.orders WHERE y IN (SELECT y FROM shop.items);"

abbrev inner_select : SelectStatement
inner_select =
    select (nodes (other_node no_nodes) no_nodes) (tables (named (codes "shop")) no_tables) missing
      missing no_nodes no_nodes false

abbrev statement : SelectStatement
statement =
    select (nodes (func_expr (codes "MAX") (nodes (other_node no_nodes) no_nodes)) no_nodes)
      (tables (named (codes "Shop")) no_tables)
      (clause (other_node (nodes (subquery inner_select no_nodes) no_nodes))) missing no_nodes
      no_nodes false

-- A parser that knows the one text.
abbrev grammar : Grammar
grammar = record {
  split = λ t. some (t ∷ []);
  parse = λ t. if equal t text then some (query statement) else none;
}

validate_sql_with_parser-none_iff_example :
    (validate_sql_with_parser grammar false text ≡ none) ↔ ReadsOnly grammar false text
validate_sql_with_parser-none_iff_example = validate_sql_with_parser-none_iff grammar false text

strip_outer_backticks-Peels_example :
    Peels (trim_space (codes " ``shop`` ")) (strip_outer_backticks (codes " ``shop`` "))
strip_outer_backticks-Peels_example = strip_outer_backticks-Peels (codes " ``shop`` ")

abbrev listed : Names
listed = allowed_database_set (codes "shop" ∷ [])

trimmed : trim_space text ≡ text
unfolding trim_space
trimmed = refl

accepted : require_referenced_schemas (reading_of grammar) listed text ≡ none
unfolding require_referenced_schemas allowed_database_set equal show_enumerates_all_schemas_in_query
    referenced_schema_qualifiers
accepted = refl

split_once : grammar.split (trim_space text) ≡ some (text ∷ [])
unfolding trim_space
split_once = refl

parsed : grammar.parse text ≡ some (query statement)
unfolding equal
parsed = refl

not_blank : equal (trim_space text) [] ≡ false
unfolding equal trim_space
not_blank = refl

enabled : access_control_enabled listed ≡ true
unfolding allowed_database_set
enabled = refl

require_referenced_schemas-mentioned_example :
    All
      (λ q.
        equal (trim_space q) [] ≡ false → database_allowed listed (to_lower (trim_space q)) ≡ true)
      (mentioned statement)
require_referenced_schemas-mentioned_example =
    require_referenced_schemas-mentioned grammar listed text text statement enabled not_blank
      split_once parsed accepted

abbrev page_text : Bytes
page_text =
    codes "SELECT MAX(x) FROM Shop.orders WHERE y IN (SELECT y FROM shop.items) LIMIT 11 OFFSET 20"

paged : inject_limit_with_offset grammar text 11 20 ≡ ok page_text
unfolding inject_limit_with_offset equal
paged = refl

-- A dangerous function in HAVING is accepted.
abbrev locking : SelectStatement
locking =
    select (nodes (other_node no_nodes) no_nodes) (tables (named (codes "shop")) no_tables) missing
      (clause (func_expr (codes "release_all_locks") (nodes (other_node no_nodes) no_nodes)))
      no_nodes no_nodes false

locking_accepted : validate_select_statement false locking ≡ none
unfolding validate_select_statement is_blocked_schema
locking_accepted = refl
