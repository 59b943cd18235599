-- ===== src/Parser/Schemas/Mentions.antt =====
-- The qualifiers that a query mentions, where internal/util/sql_parser.go looks for them: the tables
-- of FROM, derived tables and subqueries included, but not the ON condition of a join and not the
-- ORDER BY of a union.
use mysql_mcp_server.Prelude.{
  ◌≡◌, refl, Bool, not, ◌&&◌, ◌||◌, List, [], ◌∷◌, ◌++◌, Bytes, arith, equal, to_lower, trim_space,
  any,
}
use mysql_mcp_server.Prelude.Assoc.{has, has-insert}
use mysql_mcp_server.Access.{Names}
use mysql_mcp_server.Parser.Syntax.{
  Node, func_expr, subquery, star_expr, other_node, Nodes, no_nodes, nodes, Clause, missing, clause,
  Table, named, derived, join, paren_table, other_table, Tables, no_tables, tables, SelectStatement,
  select, union, paren_select, other_select,
}
use mysql_mcp_server.Parser.Schemas.{
  add_schema_qualifier, collect_node, collect_nodes, collect_clause, collect_table_expr,
  collect_table_exprs, collect_select_statement,
}

unfoldable mutual
  pub mentioned_node : Node → List Bytes
  mentioned_node (func_expr name below) = mentioned_nodes below
  mentioned_node (subquery stmt below) = mentioned stmt ++ mentioned_nodes below
  mentioned_node (star_expr below) = mentioned_nodes below
  mentioned_node (other_node below) = mentioned_nodes below

  pub mentioned_nodes : Nodes → List Bytes
  mentioned_nodes no_nodes = []
  mentioned_nodes (nodes n ns) = mentioned_node n ++ mentioned_nodes ns

  pub mentioned_clause : Clause → List Bytes
  mentioned_clause missing = []
  mentioned_clause (clause n) = mentioned_node n

  pub mentioned_table : Table → List Bytes
  mentioned_table (named qualifier) = qualifier ∷ []
  mentioned_table (derived stmt) = mentioned stmt
  mentioned_table (join l r on) = mentioned_table l ++ mentioned_table r
  mentioned_table (paren_table ts) = mentioned_tables ts
  mentioned_table other_table = []

  pub mentioned_tables : Tables → List Bytes
  mentioned_tables no_tables = []
  mentioned_tables (tables t ts) = mentioned_table t ++ mentioned_tables ts

  pub mentioned : SelectStatement → List Bytes
  mentioned (select exprs from where_clause having group_by order_by limit) =
      mentioned_tables from
      ++ (mentioned_nodes exprs
          ++ (mentioned_clause where_clause
              ++ (mentioned_clause having
                  ++ (mentioned_nodes group_by ++ mentioned_nodes order_by))))
  mentioned (union l r order_by limit) = mentioned l ++ mentioned r
  mentioned (paren_select stmt) = mentioned stmt
  mentioned other_select = []

-- Whether a qualifier is not blank, and stands in the set as `k`.
abbrev pub stands_as : Bytes → Bytes → Bool
stands_as k qual = not (equal (trim_space qual) []) && equal (to_lower (trim_space qual)) k

module _ (k : Bytes) where
  pub any-append :
      (xs ys : List Bytes)
      → any (stands_as k) (xs ++ ys) ≡ (any (stands_as k) xs || any (stands_as k) ys)
  any-append [] ys = refl
  any-append (x ∷ xs) ys = ground (arith, any-append xs ys)

  pub has-add_schema_qualifier :
      (q : Bytes) (out : Names) → has k (add_schema_qualifier q out) ≡ (has k out || stands_as k q)
  unfolding add_schema_qualifier
  has-add_schema_qualifier q out = ground (arith, has-insert (to_lower (trim_space q)) k tt out)

  mutual
    unfolding collect_select_statement mentioned

    has-collect_node :
        (n : Node) (out : Names)
        → has k (collect_node n out) ≡ (has k out || any (stands_as k) (mentioned_node n))
    has-collect_node (func_expr name below) out = has-collect_nodes below out
    has-collect_node (subquery s below) out = ground (
      arith,
      has-collect_nodes below (collect_select_statement s out),
      has-collect s out,
      any-append (mentioned s) (mentioned_nodes below),
    )
    has-collect_node (star_expr below) out = has-collect_nodes below out
    has-collect_node (other_node below) out = has-collect_nodes below out

    has-collect_nodes :
        (ns : Nodes) (out : Names)
        → has k (collect_nodes ns out) ≡ (has k out || any (stands_as k) (mentioned_nodes ns))
    has-collect_nodes no_nodes out = ground arith
    has-collect_nodes (nodes n ns) out = ground (
      arith,
      has-collect_nodes ns (collect_node n out),
      has-collect_node n out,
      any-append (mentioned_node n) (mentioned_nodes ns),
    )

    has-collect_clause :
        (c : Clause) (out : Names)
        → has k (collect_clause c out) ≡ (has k out || any (stands_as k) (mentioned_clause c))
    has-collect_clause missing out = ground arith
    has-collect_clause (clause n) out = has-collect_node n out

    has-collect_table :
        (t : Table) (out : Names)
        → has k (collect_table_expr t out) ≡ (has k out || any (stands_as k) (mentioned_table t))
    has-collect_table (named q) out = ground (arith, has-add_schema_qualifier q out)
    has-collect_table (derived s) out = has-collect s out
    has-collect_table (join l r on) out = ground (
      arith,
      has-collect_table r (collect_table_expr l out),
      has-collect_table l out,
      any-append (mentioned_table l) (mentioned_table r),
    )
    has-collect_table (paren_table ts) out = has-collect_tables ts out
    has-collect_table other_table out = ground arith

    has-collect_tables :
        (ts : Tables) (out : Names)
        → has k (collect_table_exprs ts out)
          ≡ (has k out || any (stands_as k) (mentioned_tables ts))
    has-collect_tables no_tables out = ground arith
    has-collect_tables (tables t ts) out = ground (
      arith,
      has-collect_tables ts (collect_table_expr t out),
      has-collect_table t out,
      any-append (mentioned_table t) (mentioned_tables ts),
    )

    -- The set that is collected from a query holds, besides what it held, just the qualifiers that
    -- the query mentions and that are not blank, trimmed and in lower case.
    pub has-collect :
        (s : SelectStatement) (out : Names)
        → has k (collect_select_statement s out) ≡ (has k out || any (stands_as k) (mentioned s))
    has-collect (select es from w h g o lim) out = ground (
      arith,
      has-collect_nodes o (
          collect_nodes g (
            collect_clause h (collect_clause w (collect_nodes es (collect_table_exprs from out))))),
      has-collect_nodes g
          (collect_clause h (collect_clause w (collect_nodes es (collect_table_exprs from out)))),
      has-collect_clause h (collect_clause w (collect_nodes es (collect_table_exprs from out))),
      has-collect_clause w (collect_nodes es (collect_table_exprs from out)),
      has-collect_nodes es (collect_table_exprs from out),
      has-collect_tables from out,
      any-append (mentioned_tables from) (
          mentioned_nodes es
          ++ (mentioned_clause w
              ++ (mentioned_clause h ++ (mentioned_nodes g ++ mentioned_nodes o)))),
      any-append (mentioned_nodes es)
          (mentioned_clause w ++ (mentioned_clause h ++ (mentioned_nodes g ++ mentioned_nodes o))),
      any-append (mentioned_clause w)
          (mentioned_clause h ++ (mentioned_nodes g ++ mentioned_nodes o)),
      any-append (mentioned_clause h) (mentioned_nodes g ++ mentioned_nodes o),
      any-append (mentioned_nodes g) (mentioned_nodes o),
    )
    has-collect (union l r o lim) out = ground (
      arith,
      has-collect r (collect_select_statement l out),
      has-collect l out,
      any-append (mentioned l) (mentioned r),
    )
    has-collect (paren_select s) out = has-collect s out
    has-collect other_select out = ground arith
