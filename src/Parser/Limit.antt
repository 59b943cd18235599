-- ===== src/Parser/Limit.antt =====
-- internal/util/sql_parser.go: `InjectLimit`, `InjectLimitWithOffset` and `HasSelectStar`.
pub mod Printed
use mysql_mcp_server.Prelude.{
  ℕ, Bool, true, false, not, ◌||◌, ◌++◌, Option, none, some, Bytes, codes, trim_space, trim_right,
  leb, ◌==◌, if◌then◌else◌, Result, ok, err,
}
use mysql_mcp_server.Prelude.Decimal.{decimal}
use mysql_mcp_server.Config.Env.{half, positive}
use mysql_mcp_server.Parser.Syntax.{
  Node, star_expr, Nodes, no_nodes, nodes, SelectStatement, select, union, paren_select,
  other_select, Statement, query, Grammar,
}

-- whether there is a LIMIT; `none` for what is neither a SELECT nor a UNION
abbrev pub top_limit : Statement → Option Bool
top_limit (query (select exprs from where_clause having group_by order_by limit)) = some limit
top_limit (query (union l r order_by limit)) = some limit
top_limit _ = none

-- `strings.TrimRight(strings.TrimSpace(trimmed), ";")`
unfoldable pub base : Bytes → Bytes
unfolding trim_right trim_space
base trimmed = trim_right (λ c. c == b';') (trim_space trimmed)

abbrev pub top_limit_of : Option Statement → Option Bool
top_limit_of none = none
top_limit_of (some stmt) = top_limit stmt

-- `InjectLimit`; a limit below zero is one from 2 ^ 63 on
unfoldable pub inject_limit : Grammar → Bytes → ℕ → Bytes
unfolding trim_space base decimal
inject_limit g sql_text limit =
    if not (positive limit) then sql_text else elim (top_limit_of (g.parse (trim_space sql_text))) [
      | none ↦ sql_text
      | some true ↦ sql_text
      | some false ↦ base (trim_space sql_text) ++ (codes " LIMIT " ++ decimal limit)
    ]

pub data PaginationError : Type 0 where
  negative_offset unparsable_sql no_select has_limit : PaginationError

paginate : Option Bool → Bytes → Result PaginationError Bytes
paginate none text = err no_select
paginate (some true) text = err has_limit
paginate (some false) text = ok text

-- `InjectLimitWithOffset`
unfoldable pub inject_limit_with_offset : Grammar → Bytes → ℕ → ℕ → Result PaginationError Bytes
unfolding trim_space base decimal paginate
inject_limit_with_offset g sql_text fetch_limit offset =
    if not (positive fetch_limit)
    then ok sql_text
    else if leb half offset
    then err negative_offset
    else elim (g.parse (trim_space sql_text)) [
      | none ↦ err unparsable_sql
      | some stmt ↦ paginate (top_limit stmt) (
          base (trim_space sql_text)
          ++ (codes " LIMIT " ++ (decimal fetch_limit ++ (codes " OFFSET " ++ decimal offset))))
    ]

abbrev pub is_star : Node → Bool
is_star (star_expr below) = true
is_star _ = false

abbrev pub any_star : Nodes → Bool
any_star no_nodes = false
any_star (nodes n ns) = is_star n || any_star ns

-- `selectHasStar` of a query
abbrev pub select_has_star : SelectStatement → Bool
select_has_star (select exprs from where_clause having group_by order_by limit) = any_star exprs
select_has_star (union l r order_by limit) = select_has_star l || select_has_star r
select_has_star (paren_select stmt) = select_has_star stmt
select_has_star other_select = false

abbrev pub statement_has_star : Option Statement → Bool
statement_has_star (some (query stmt)) = select_has_star stmt
statement_has_star _ = false

-- `HasSelectStar`
unfoldable pub has_select_star : Grammar → Bytes → Bool
unfolding trim_space
has_select_star g sql_text = statement_has_star (g.parse (trim_space sql_text))
