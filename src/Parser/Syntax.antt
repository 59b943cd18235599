-- ===== src/Parser/Syntax.antt =====
-- The statements as sql_parser.go takes them apart: for each type of github.com/xwb1989/sqlparser
-- that it matches on, a constructor with the fields that it reads. The parser itself is an argument.
use mysql_mcp_server.Prelude.{Bool, List, Option, Bytes}

mutual
  -- A node of an expression. The last field of each holds what `sqlparser.Walk` visits below it, in
  -- its order.
  pub data Node : Type 0 where
    func_expr : Bytes → Nodes → Node
    subquery : SelectStatement → Nodes → Node
    star_expr : Nodes → Node
    other_node : Nodes → Node

  pub data Nodes : Type 0 where
    no_nodes : Nodes
    nodes : Node → Nodes → Nodes

  -- A clause that may be missing, by its expression: WHERE, HAVING, ON.
  pub data Clause : Type 0 where
    missing : Clause
    clause : Node → Clause

  -- `named` and `derived` are `AliasedTableExpr` over a table name, with its qualifier, and over a
  -- subquery; `join` has the ON condition.
  pub data Table : Type 0 where
    named : Bytes → Table
    derived : SelectStatement → Table
    join : Table → Table → Clause → Table
    paren_table : Tables → Table
    other_table : Table

  pub data Tables : Type 0 where
    no_tables : Tables
    tables : Table → Tables → Tables

  -- `select exprs from where having group_by order_by limit`, where `limit` tells whether there is
  -- one; a union has one of its own, and its ORDER BY.
  pub data SelectStatement : Type 0 where
    select : Nodes → Tables → Clause → Clause → Nodes → Nodes → Bool → SelectStatement
    union : SelectStatement → SelectStatement → Nodes → Bool → SelectStatement
    paren_select : SelectStatement → SelectStatement
    other_select : SelectStatement

-- `show kind on_table tables_db` has the qualifier of the table and the database of SHOW TABLES.
pub data Statement : Type 0 where
  query : SelectStatement → Statement
  show : Bytes → Option Bytes → Option Bytes → Statement
  other_read : Statement
  use_database : Bytes → Statement
  insert_into : Bytes → Statement
  update delete_from : Tables → Clause → Statement
  ddl db_ddl set_variable other_admin other_statement : Statement

-- `sqlparser.SplitStatementToPieces` and `sqlparser.Parse`; `none` is their error.
pub record Grammar : Type 0 where
  pub split : Bytes → Option (List Bytes)
  pub parse : Bytes → Option Statement
