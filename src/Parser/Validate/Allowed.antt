-- ===== src/Parser/Validate/Allowed.antt =====
-- The statements that the parser layer accepts.
use mysql_mcp_server.Prelude.{
  ◌≡◌, ◌≢◌, ◌↔◌, ◌∙◌, refl, Bool, true, false, ◌&&◌, List, [], ◌∷◌, ◌++◌, Option, none, some, arith,
  Bytes, equal, equal_iff, trim_space, all, Bool-cases, Option-cases, sym, inl, inr,
}
use mysql_mcp_server.Parser.Syntax.{
  Node, func_expr, subquery, star_expr, other_node, Nodes, no_nodes, nodes, Clause, missing, clause,
  Table, named, derived, join, paren_table, other_table, Tables, no_tables, tables, SelectStatement,
  select, union, paren_select, other_select, Statement, query, show, other_read, use_database,
  Grammar,
}
use mysql_mcp_server.Parser.Validate.{
  ParserError, or_error, walk_node, walk_nodes, check_exprs, check_clause, check_table_expr,
  check_table_exprs, check_subqueries, check_all_subqueries, validate_select_statement,
  validate_statement, validate_sql_with_parser, validate_pieces, validate_parsed,
}
use mysql_mcp_server.Parser.Validate.Parts.{
  parts_of_node, parts_of_nodes, parts_of_clause, parts_of_table, parts_of_tables, parts_of,
  is_harmless,
}

abbrev pub passes : {E : Type 0} → Option E → Bool
passes none = true
passes (some e) = false

passes-or_error : {E : Type 0} (a b : Option E) → passes (or_error a b) ≡ (passes a && passes b)
passes-or_error none b = refl
passes-or_error (some e) b = refl

all-append :
    {A : Type 0} (p : A → Bool) (xs ys : List A) → all p (xs ++ ys) ≡ (all p xs && all p ys)
all-append p [] ys = refl
all-append p (x ∷ xs) ys = ground (arith, all-append p xs ys)

-- The checks of the derived tables repeat what has been checked.
mutual
  unfolding check_subqueries check_table_expr

  subqueries_passed :
      (a : Bool) (t : Table)
      → passes (check_table_expr a t) ≡ true
      → passes (check_subqueries a t) ≡ true
  subqueries_passed a (named q) h = refl
  subqueries_passed a (derived s) h = h
  subqueries_passed a (join l r on) h = ground (
    arith,
    passes-or_error (check_table_expr a l) (or_error (check_table_expr a r) (check_clause a on)),
    passes-or_error (check_table_expr a r) (check_clause a on),
    passes-or_error (check_subqueries a l) (check_subqueries a r),
    subqueries_passed a l,
    subqueries_passed a r,
  )
  subqueries_passed a (paren_table ts) h = all_subqueries_passed a ts h
  subqueries_passed a other_table h = refl

  all_subqueries_passed :
      (a : Bool) (ts : Tables)
      → passes (check_table_exprs a ts) ≡ true
      → passes (check_all_subqueries a ts) ≡ true
  all_subqueries_passed a no_tables h = refl
  all_subqueries_passed a (tables t ts) h = ground (
    arith,
    passes-or_error (check_table_expr a t) (check_table_exprs a ts),
    passes-or_error (check_subqueries a t) (check_all_subqueries a ts),
    subqueries_passed a t,
    all_subqueries_passed a ts,
  )

mutual
  unfolding walk_node check_table_expr check_clause validate_select_statement parts_of parts_of_node

  passes-walk_node :
      (a : Bool) (n : Node) (found : Option ParserError)
      → passes (walk_node a n found) ≡ (all (is_harmless a) (parts_of_node n) && passes found)
  passes-walk_node a (func_expr name below) found = ground (arith, passes-walk_nodes a below found)
  passes-walk_node a (subquery s below) found = ground (
    arith,
    passes-walk_nodes a below found,
    passes-validate a s,
    passes-or_error (validate_select_statement a s) (walk_nodes a below found),
    all-append (is_harmless a) (parts_of s) (parts_of_nodes below),
  )
  passes-walk_node a (star_expr below) found = passes-walk_nodes a below found
  passes-walk_node a (other_node below) found = passes-walk_nodes a below found

  passes-walk_nodes :
      (a : Bool) (ns : Nodes) (found : Option ParserError)
      → passes (walk_nodes a ns found) ≡ (all (is_harmless a) (parts_of_nodes ns) && passes found)
  passes-walk_nodes a no_nodes found = refl
  passes-walk_nodes a (nodes n ns) found = ground (
    arith,
    passes-walk_nodes a ns (walk_node a n found),
    passes-walk_node a n found,
    all-append (is_harmless a) (parts_of_node n) (parts_of_nodes ns),
  )

  passes-check_exprs :
      (a : Bool) (ns : Nodes) → passes (check_exprs a ns) ≡ all (is_harmless a) (parts_of_nodes ns)
  passes-check_exprs a no_nodes = refl
  passes-check_exprs a (nodes n ns) = ground (
    arith,
    passes-walk_node a n none,
    passes-check_exprs a ns,
    passes-or_error (walk_node a n none) (check_exprs a ns),
    all-append (is_harmless a) (parts_of_node n) (parts_of_nodes ns),
  )

  passes-check_clause :
      (a : Bool) (c : Clause) → passes (check_clause a c) ≡ all (is_harmless a) (parts_of_clause c)
  passes-check_clause a missing = refl
  passes-check_clause a (clause n) = ground (arith, passes-walk_node a n none)

  passes-check_table_expr :
      (a : Bool) (t : Table)
      → passes (check_table_expr a t) ≡ all (is_harmless a) (parts_of_table t)
  passes-check_table_expr a (named q) = ground arith
  passes-check_table_expr a (derived s) = passes-validate a s
  passes-check_table_expr a (join l r on) = ground (
    arith,
    passes-or_error (check_table_expr a l) (or_error (check_table_expr a r) (check_clause a on)),
    passes-or_error (check_table_expr a r) (check_clause a on),
    passes-check_table_expr a l,
    passes-check_table_expr a r,
    passes-check_clause a on,
    all-append (is_harmless a) (parts_of_table l) (parts_of_table r ++ parts_of_clause on),
    all-append (is_harmless a) (parts_of_table r) (parts_of_clause on),
  )
  passes-check_table_expr a (paren_table ts) = passes-check_table_exprs a ts
  passes-check_table_expr a other_table = refl

  passes-check_table_exprs :
      (a : Bool) (ts : Tables)
      → passes (check_table_exprs a ts) ≡ all (is_harmless a) (parts_of_tables ts)
  passes-check_table_exprs a no_tables = refl
  passes-check_table_exprs a (tables t ts) = ground (
    arith,
    passes-or_error (check_table_expr a t) (check_table_exprs a ts),
    passes-check_table_expr a t,
    passes-check_table_exprs a ts,
    all-append (is_harmless a) (parts_of_table t) (parts_of_tables ts),
  )

  pub passes-validate :
      (a : Bool) (s : SelectStatement)
      → passes (validate_select_statement a s) ≡ all (is_harmless a) (parts_of s)
  passes-validate a (select es from w h g o l) = ground (
    arith,
    passes-or_error (check_exprs a es) (
        or_error (check_table_exprs a from)
          (or_error (check_clause a w) (check_all_subqueries a from))),
    passes-or_error (check_table_exprs a from)
        (or_error (check_clause a w) (check_all_subqueries a from)),
    passes-or_error (check_clause a w) (check_all_subqueries a from),
    passes-check_exprs a es,
    passes-check_table_exprs a from,
    passes-check_clause a w,
    all_subqueries_passed a from,
    all-append (is_harmless a) (parts_of_nodes es) (parts_of_tables from ++ parts_of_clause w),
    all-append (is_harmless a) (parts_of_tables from) (parts_of_clause w),
  )
  passes-validate a (union l r o lim) = ground (
    arith,
    passes-or_error (validate_select_statement a l) (validate_select_statement a r),
    passes-validate a l,
    passes-validate a r,
    all-append (is_harmless a) (parts_of l) (parts_of r),
  )
  passes-validate a (paren_select s) = passes-validate a s
  passes-validate a other_select = refl

-- A statement of one of the types that may be read.
abbrev pub is_read : Bool → Statement → Bool
is_read a (query s) = all (is_harmless a) (parts_of s)
is_read a (show kind on_table tables_db) = true
is_read a other_read = true
is_read a (use_database db) = true
is_read a _ = false

pub passes-validate_statement :
    (a : Bool) (s : Statement) → passes (validate_statement a s) ≡ is_read a s
unfolding validate_statement
passes-validate_statement a s = elim s as (λ k. passes (validate_statement a k) ≡ is_read a k) [
  | query s ↦ passes-validate a s
  | _ ↦ refl
]

none-passes : {E : Type 0} (o : Option E) → (o ≡ none) ↔ (passes o ≡ true)
none-passes none = ground arith
none-passes (some e) = ground arith

-- What `ValidateSQLWithParser` accepts.
abbrev pub ReadsOnly : Grammar → Bool → Bytes → Type 0
ReadsOnly g a text =
    (piece : Bytes) × (stmt : Statement) × (trim_space text ≢ [])
    × (g.split (trim_space text) ≡ some (piece ∷ []))
    × (g.parse piece ≡ some stmt)
    × (is_read a stmt ≡ true)

pieces-accepted :
    (g : Grammar) (a : Bool) (o : Option (List Bytes))
    → validate_pieces g a o ≡ none
    → (piece : Bytes) × (stmt : Statement) × (o ≡ some (piece ∷ []))
      × (g.parse piece ≡ some stmt)
      × (is_read a stmt ≡ true)
unfolding validate_pieces validate_parsed
pieces-accepted g a none h = absurd (cc)
pieces-accepted g a (some []) h = absurd (cc)
pieces-accepted g a (some (piece ∷ next ∷ rest)) h = absurd (cc)
pieces-accepted g a (some (piece ∷ [])) h = elim (Option-cases (g.parse piece)) [
  | inl e ↦ absurd (let k = rw e at h in cc)
  | inr (stmt, e) ↦ (
    piece,
    stmt,
    refl,
    e,
    sym (passes-validate_statement a stmt)
        ∙ (none-passes (validate_statement a stmt)).0 (rw e at h),
  )
]

-- The parser layer accepts a text just when trimming leaves something, it splits into one piece,
-- the piece parses, and the statement is a SHOW, another reading statement or a USE, or a query in
-- which every function called in the select list, an ON condition or WHERE, and the qualifier of
-- every table in FROM, those of subqueries in these places included, may stand. HAVING, GROUP BY,
-- ORDER BY and LIMIT are free: what is called there does not matter.
pub validate_sql_with_parser-none_iff :
    (g : Grammar) (a : Bool) (text : Bytes)
    → (validate_sql_with_parser g a text ≡ none) ↔ ReadsOnly g a text
unfolding validate_sql_with_parser validate_pieces validate_parsed
validate_sql_with_parser-none_iff g a text = (
  λ h. elim (Bool-cases (equal (trim_space text) [])) [
    | inl e ↦ absurd (let k = rw e at h in cc)
    | inr e ↦
        let (piece, stmt, f, p, r) = pieces-accepted g a (g.split (trim_space text)) (rw e at h) in
        (piece, stmt, (λ k. absurd (let l = (equal_iff (trim_space text) []).1 k in cc)), f, p, r)
  ],
  λ (piece, stmt, n, f, p, r). elim (Bool-cases (equal (trim_space text) [])) [
    | inl e ↦ absurd (n ((equal_iff (trim_space text) []).0 e))
    | inr e ↦
        rw (e, f, p)
          ((none-passes (validate_statement a stmt)).1 (passes-validate_statement a stmt ∙ r))
  ],
)
