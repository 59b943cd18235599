-- ===== src/Parser/Validate/Parts.antt =====
-- What the parser layer looks at in a statement: the functions called in the select list, the ON
-- conditions and WHERE, and the qualifiers of the tables in FROM, in subqueries there too. What is in
-- HAVING, GROUP BY, ORDER BY and LIMIT is not among the parts, as `validateSelect` does not go there.
use mysql_mcp_server.Prelude.{Bool, false, not, List, [], ◌∷◌, ◌++◌, Bytes}
use mysql_mcp_server.Parser.Syntax.{
  Node, func_expr, subquery, star_expr, other_node, Nodes, no_nodes, nodes, Clause, missing, clause,
  Table, named, derived, join, paren_table, other_table, Tables, no_tables, tables, SelectStatement,
  select, union, paren_select, other_select,
}
use mysql_mcp_server.Parser.Validate.{is_dangerous_function, is_blocked_schema}

pub data Part : Type 0 where
  call : Bytes → Part
  table_of : Bytes → Part
  unknown : Part

unfoldable mutual
  pub parts_of_node : Node → List Part
  parts_of_node (func_expr name below) = call name ∷ parts_of_nodes below
  parts_of_node (subquery stmt below) = parts_of stmt ++ parts_of_nodes below
  parts_of_node (star_expr below) = parts_of_nodes below
  parts_of_node (other_node below) = parts_of_nodes below

  pub parts_of_nodes : Nodes → List Part
  parts_of_nodes no_nodes = []
  parts_of_nodes (nodes n ns) = parts_of_node n ++ parts_of_nodes ns

  pub parts_of_clause : Clause → List Part
  parts_of_clause missing = []
  parts_of_clause (clause n) = parts_of_node n

  pub parts_of_table : Table → List Part
  parts_of_table (named qualifier) = table_of qualifier ∷ []
  parts_of_table (derived stmt) = parts_of stmt
  parts_of_table (join l r on) = parts_of_table l ++ (parts_of_table r ++ parts_of_clause on)
  parts_of_table (paren_table ts) = parts_of_tables ts
  parts_of_table other_table = []

  pub parts_of_tables : Tables → List Part
  parts_of_tables no_tables = []
  parts_of_tables (tables t ts) = parts_of_table t ++ parts_of_tables ts

  pub parts_of : SelectStatement → List Part
  parts_of (select exprs from where_clause having group_by order_by limit) =
      parts_of_nodes exprs ++ (parts_of_tables from ++ parts_of_clause where_clause)
  parts_of (union l r order_by limit) = parts_of l ++ parts_of r
  parts_of (paren_select stmt) = parts_of stmt
  parts_of other_select = unknown ∷ []

-- A part that may stand in a query.
abbrev pub is_harmless : Bool → Part → Bool
is_harmless allow (call name) = not (is_dangerous_function name)
is_harmless allow (table_of qualifier) = not (is_blocked_schema allow qualifier)
is_harmless allow unknown = false
