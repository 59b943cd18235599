-- ===== src/Parser/Schemas.antt =====
-- internal/util/sql_parser.go: the databases that a statement refers to, from
-- `stripLeadingExplainModifiers` and `addSchemaQualifier` to `ReferencedSchemaQualifiers`.
pub mod Mentions
pub mod Enforced
pub mod Backticks
use mysql_mcp_server.Prelude.{
  ℕ, zero, suc, ◌-◌, Bool, true, false, not, ◌&&◌, ◌||◌, List, [], ◌∷◌, Option, none, some, Bytes,
  codes, equal, to_lower, to_upper, trim_space, trim_left, has_prefix, has_suffix, take, drop,
  length, leb, ltb, ◌==◌, is_space, take_until, index, map, if◌then◌else◌, Result, ok, err,
  and_then, or_else,
}
use mysql_mcp_server.Prelude.Assoc.{Map, insert}
use mysql_mcp_server.Access.{Names, Reading}
use mysql_mcp_server.Util.Regex.{is_word, is_blank}
use mysql_mcp_server.Parser.Syntax.{
  Node, func_expr, subquery, star_expr, other_node, Nodes, no_nodes, nodes, Clause, missing, clause,
  Table, named, derived, join, paren_table, other_table, Tables, no_tables, tables, SelectStatement,
  select, union, paren_select, other_select, Statement, query, show, other_read, use_database,
  insert_into, update, delete_from, ddl, db_ddl, set_variable, other_admin, other_statement,
  Grammar,
}

-- `addSchemaQualifier`, and the assignments `out[strings.ToLower(s)] = struct{}{}` like it
unfoldable pub add_schema_qualifier : Bytes → Names → Names
unfolding equal to_lower trim_space insert
add_schema_qualifier qual out =
    if equal (trim_space qual) [] then out else insert (to_lower (trim_space qual)) tt out

unfoldable mutual
  unfolding add_schema_qualifier

  -- `collectExprSubquerySchemas`: the walk below an expression
  pub collect_node : Node → Names → Names
  collect_node (func_expr name below) out = collect_nodes below out
  collect_node (subquery stmt below) out = collect_nodes below (collect_select_statement stmt out)
  collect_node (star_expr below) out = collect_nodes below out
  collect_node (other_node below) out = collect_nodes below out

  pub collect_nodes : Nodes → Names → Names
  collect_nodes no_nodes out = out
  collect_nodes (nodes n ns) out = collect_nodes ns (collect_node n out)

  pub collect_clause : Clause → Names → Names
  collect_clause missing out = out
  collect_clause (clause n) out = collect_node n out

  -- `collectTableExprSchemas`
  pub collect_table_expr : Table → Names → Names
  collect_table_expr (named qualifier) out = add_schema_qualifier qualifier out
  collect_table_expr (derived stmt) out = collect_select_statement stmt out
  collect_table_expr (join l r on) out = collect_table_expr r (collect_table_expr l out)
  collect_table_expr (paren_table ts) out = collect_table_exprs ts out
  collect_table_expr other_table out = out

  pub collect_table_exprs : Tables → Names → Names
  collect_table_exprs no_tables out = out
  collect_table_exprs (tables t ts) out = collect_table_exprs ts (collect_table_expr t out)

  -- `collectSelectStatementSchemas`, with `collectSelectSchemas`
  pub collect_select_statement : SelectStatement → Names → Names
  collect_select_statement (select exprs from where_clause having group_by order_by limit) out =
      collect_nodes order_by (
        collect_nodes group_by (
          collect_clause having
            (collect_clause where_clause (collect_nodes exprs (collect_table_exprs from out)))))
  collect_select_statement (union l r order_by limit) out =
      collect_select_statement r (collect_select_statement l out)
  collect_select_statement (paren_select stmt) out = collect_select_statement stmt out
  collect_select_statement other_select out = out

add_if_given : Option Bytes → Names → Names
unfolding add_schema_qualifier
add_if_given none out = out
add_if_given (some qual) out = add_schema_qualifier qual out

-- `collectStmtReferencedSchemas`
unfoldable pub collect_stmt : Statement → Names → Names
unfolding collect_select_statement collect_table_exprs collect_clause add_if_given
collect_stmt (query stmt) out = collect_select_statement stmt out
collect_stmt (show kind on_table tables_db) out = add_if_given tables_db (add_if_given on_table out)
collect_stmt (use_database db) out = add_schema_qualifier db out
collect_stmt (insert_into qualifier) out = add_schema_qualifier qualifier out
collect_stmt (update ts where_clause) out = collect_clause where_clause (collect_table_exprs ts out)
collect_stmt (delete_from ts where_clause) out =
    collect_clause where_clause (collect_table_exprs ts out)
collect_stmt _ out = out

-- the condition of the loop of `stripOuterBackticks`
unfoldable pub is_backticked : Bytes → Bool
unfolding has_prefix has_suffix
is_backticked s = has_prefix s (b'`' ∷ []) && has_suffix s (b'`' ∷ []) && leb 2 (length s)

-- `strings.TrimSpace(s[1 : len(s)-1])`
unfoldable pub inner : Bytes → Bytes
unfolding trim_space
inner s = trim_space (take (length s - 2) (drop 1 s))

unfoldable pub strip_backticks : ℕ → Bytes → Bytes
unfolding is_backticked inner
strip_backticks zero s = s
strip_backticks (suc fuel) s =
    let rest = strip_backticks fuel (inner s) in if is_backticked s then rest else s

-- `stripOuterBackticks`; each round takes two bytes at least
unfoldable pub strip_outer_backticks : Bytes → Bytes
unfolding strip_backticks trim_space
strip_outer_backticks s = strip_backticks (length (trim_space s)) (trim_space s)

-- the part of a reference in front of its first dot
unfoldable pub schema_of_token : Bytes → Bytes
unfolding index strip_outer_backticks
schema_of_token token = elim (index token (b'.' ∷ [])) [
  | none ↦ []
  | some zero ↦ []
  | some (suc i) ↦ strip_outer_backticks (take (suc i) token)
]

-- `schemaFromDescribeTableRef`
unfoldable pub schema_from_describe_table_ref : Bytes → Bytes
unfolding schema_of_token strip_outer_backticks take_until is_space trim_space
schema_from_describe_table_ref rest =
    schema_of_token (strip_outer_backticks (take_until is_space (trim_space rest)))

-- A word of the text, whatever its case, with what stands behind it.
unfoldable pub after_word : Bytes → Bytes → Option Bytes
unfolding has_prefix to_upper
after_word word s = if has_prefix (to_upper s) word then some (drop (length word) s) else none

-- `\s+` and `\w+`
unfoldable pub some_of : (ℕ → Bool) → Bytes → Option Bytes
unfolding trim_left
some_of p [] = none
some_of p (x ∷ s) = if p x then some (trim_left p s) else none

-- `explainOptionPrefix`, by its three alternatives: what stands behind the match
unfoldable pub format_option : Bytes → Option Bytes
unfolding after_word some_of trim_left is_blank is_word
format_option s = and_then (after_word (codes "FORMAT") s) (λ t.
    and_then (after_word (codes "=") (trim_left is_blank t))
      (λ u. and_then (some_of is_word (trim_left is_blank u)) (λ v. some_of is_blank v)))

unfoldable pub explain_option : Bytes → Option Bytes
unfolding format_option after_word some_of is_blank
explain_option s = or_else (format_option s) (
    or_else (and_then (after_word (codes "EXTENDED") s) (some_of is_blank))
      (and_then (after_word (codes "PARTITIONS") s) (some_of is_blank)))

-- `stripLeadingExplainModifiers`, from a number of rounds on: 8
unfoldable pub strip_leading_explain_modifiers : ℕ → Bytes → Bytes
unfolding explain_option trim_space
strip_leading_explain_modifiers zero s = s
strip_leading_explain_modifiers (suc n) s = elim (explain_option s) [
  | none ↦ s
  | some rest ↦ strip_leading_explain_modifiers n (trim_space rest)
]

pub data SchemaError : Type 0 where
  no_query not_parsed several : SchemaError
  explained_not_parsed cannot_extract : SchemaError

collect_parsed : SchemaError → Option Statement → Names → Result SchemaError Names
unfolding collect_stmt
collect_parsed e none out = err e
collect_parsed e (some stmt) out = ok (collect_stmt stmt out)

-- the statement behind EXPLAIN
unfoldable pub collect_explained : Grammar → Bytes → Names → Result SchemaError Names
unfolding collect_parsed strip_leading_explain_modifiers trim_space equal
collect_explained g text out =
    let s = strip_leading_explain_modifiers 8 (trim_space (trim_space text)) in
    if equal (trim_space text) []
    then ok out
    else if equal s []
    then ok out
    else collect_parsed explained_not_parsed (g.parse s) out

-- `collectFromOtherRead`, whose `handled` is false for `cannot_extract`; it is given a trimmed text
unfoldable pub collect_from_other_read : Grammar → Bytes → Names → Result SchemaError Names
unfolding collect_explained add_schema_qualifier schema_from_describe_table_ref after_word
    trim_space
collect_from_other_read g sql_text out =
    elim (after_word (codes "EXPLAIN ANALYZE ") (trim_space sql_text)) [
      | some rest ↦ collect_explained g rest out
      | none ↦ elim (after_word (codes "EXPLAIN ") (trim_space sql_text)) [
        | some rest ↦ collect_explained g rest out
        | none ↦ elim (after_word (codes "DESCRIBE ") (trim_space sql_text)) [
          | some rest ↦ ok (add_schema_qualifier (schema_from_describe_table_ref rest) out)
          | none ↦ elim (after_word (codes "DESC ") (trim_space sql_text)) [
            | some rest ↦ ok (add_schema_qualifier (schema_from_describe_table_ref rest) out)
            | none ↦ err cannot_extract
          ]
        ]
      ]
    ]

collect_one : Grammar → Bytes → Option Statement → Result SchemaError Names
unfolding collect_stmt collect_from_other_read
collect_one g piece none = err not_parsed
collect_one g piece (some other_read) = collect_from_other_read g piece []
collect_one g piece (some stmt) = ok (collect_stmt stmt [])

collect_pieces : Grammar → Option (List Bytes) → Result SchemaError Names
unfolding collect_one
collect_pieces g none = err not_parsed
collect_pieces g (some []) = err no_query
collect_pieces g (some (piece ∷ [])) = collect_one g piece (g.parse piece)
collect_pieces g (some (piece ∷ next ∷ rest)) = err several

-- `ReferencedSchemaQualifiers`
unfoldable pub referenced_schema_qualifiers : Grammar → Bytes → Result SchemaError Names
unfolding collect_pieces equal trim_space
referenced_schema_qualifiers g sql_text =
    if equal (trim_space sql_text) []
    then err no_query
    else collect_pieces g (g.split (trim_space sql_text))

-- `ShowEnumeratesAllSchemas`
unfoldable pub show_enumerates_all_schemas : Statement → Bool
unfolding equal has_prefix trim_space to_lower
show_enumerates_all_schemas (show kind on_table tables_db) =
    equal (trim_space (to_lower kind)) (codes "databases")
    || has_prefix (trim_space (to_lower kind)) (codes "databases ")
show_enumerates_all_schemas _ = false

enumerates_parsed : Option Statement → Bool
unfolding show_enumerates_all_schemas
enumerates_parsed none = false
enumerates_parsed (some stmt) = show_enumerates_all_schemas stmt

enumerates_pieces : Grammar → Option (List Bytes) → Bool
unfolding enumerates_parsed trim_space
enumerates_pieces g (some (piece ∷ [])) = enumerates_parsed (g.parse (trim_space piece))
enumerates_pieces g _ = false

-- `ShowEnumeratesAllSchemasInQuery`
unfoldable pub show_enumerates_all_schemas_in_query : Grammar → Bytes → Bool
unfolding enumerates_pieces equal trim_space
show_enumerates_all_schemas_in_query g sql_text =
    if equal (trim_space sql_text) []
    then false
    else enumerates_pieces g (g.split (trim_space sql_text))

abbrev pub keys_of : Names → List Bytes
keys_of [] = []
keys_of ((k, u) ∷ m) = k ∷ keys_of m

abbrev pub keys_read : Result SchemaError Names → Option (List Bytes)
keys_read (ok out) = some (keys_of out)
keys_read (err e) = none

-- What the access checks read of a query.
abbrev pub reading_of : Grammar → Reading
reading_of g = record {
  enumerates_all = show_enumerates_all_schemas_in_query g;
  referenced = λ text. keys_read (referenced_schema_qualifiers g text);
}
