-- ===== src/Util/Tests.antt =====
-- The theorems on internal/util at concrete inputs.
use mysql_mcp_server.Prelude.{
  ℕ, ◌≤◌, ◌≡◌, ◌≢◌, ◌↔◌, ◌⊎◌, refl, Bool, true, false, List, [], ◌∷◌, none, some, arith, Bytes,
  codes, length, map, All, trim_space, contains, to_upper, ok, is_space, all, not, ◌&&◌, ◌==◌, inr,
  and-eq-true,
}
use mysql_mcp_server.Util.Identifiers.{quote_ident, mask_dsn}
use mysql_mcp_server.Util.Identifiers.Quoting.{read_quoted, read_quoted-quote_ident}
use mysql_mcp_server.Util.Identifiers.Masking.{mask_dsn_lem}
use mysql_mcp_server.Util.Literals.{Quote, strip_literals}
use mysql_mcp_server.Util.Literals.Blanking.{IsPlain}
use mysql_mcp_server.Util.Literals.Contents.{Item, IsItem}
use mysql_mcp_server.Util.Regex.Meaning.{Found}
use mysql_mcp_server.Util.Validator.{validate_sql}
use mysql_mcp_server.Util.Validator.Verdict.{IsSafe, validate_sql-none_iff}
use mysql_mcp_server.Util.Validator.Comments.{validate_sql_no_comments}
use mysql_mcp_server.Util.Validator.Independence.{validate_sql-literal}
use mysql_mcp_server.Util.WhereClause.{dangerous_where_patterns, count_byte, validate_where_clause}
use mysql_mcp_server.Util.WhereClause.Accepted.{validate_where_clause-none_iff}
use mysql_mcp_server.Util.Columns.{validate_select_columns, dangerous_patterns, or_star}
use mysql_mcp_server.Util.Columns.Shape.{IsColumn, validate_select_columns-IsColumn}

-- A property of all bytes, from a test.
all-All :
    {P : ℕ → Type 0} (p : ℕ → Bool)
    → ((c : ℕ) → p c ≡ true → P c)
    → (s : Bytes) → all p s ≡ true
    → All P s
all-All p f [] h = tt
all-All p f (c ∷ s) h = let (g, k) = and-eq-true (p c) (all p s) h in (f c g, all-All p f s k)

plain :
    (s : Bytes)
    → all (λ c. not (c == 39) && (not (c == b'"') && not (c == b'`'))) s ≡ true
    → All IsPlain s
plain s h =
    all-All (λ c. not (c == 39) && (not (c == b'"') && not (c == b'`')))
      (λ c g. (ground arith, ground arith, ground arith)) s h

content :
    (s : Bytes)
    → all (λ c. not (c == 39) && not (c == 92)) s ≡ true
    → All (IsItem Quote.single) (map Item.plain_byte s)
content [] h = tt
content (c ∷ s) h =
    let (g, k) =
      and-eq-true (not (c == 39) && not (c == 92)) (all (λ c. not (c == 39) && not (c == 92)) s)
        h in
    ((ground arith, inr (ground arith)), content s k)

without : (b : ℕ) (s : Bytes) → all (λ c. not (c == b)) s ≡ true → All (λ x. x ≢ b) s
without b s h = all-All (λ c. not (c == b)) (λ c g. ground arith) s h

abbrev query : Bytes
query = codes " SELECT name FROM users WHERE id = '1; DROP TABLE users -- ' ;"

accepted : validate_sql false query ≡ none
unfolding validate_sql
accepted = refl

validate_sql-none_iff_example : (validate_sql false query ≡ none) ↔ (
    (trim_space query ≢ []) × IsSafe false (trim_space query) (strip_literals (trim_space query)))
validate_sql-none_iff_example = validate_sql-none_iff false query

validate_sql_no_comments_example :
    (contains (strip_literals (trim_space query)) (codes "--") ≡ false)
    × (contains (strip_literals (trim_space query)) (codes "/*") ≡ false)
    × (contains (strip_literals (trim_space query)) (codes "#") ≡ false)
validate_sql_no_comments_example = validate_sql_no_comments false query accepted

abbrev schema_query : Bytes
schema_query = codes "SELECT * FROM information_schema.tables"

-- `x''\' DROP TABLE t`
abbrev hostile : List Item
hostile =
    Item.plain_byte b'x' ∷ Item.quote ∷ Item.escape 39 ∷ map Item.plain_byte (codes " DROP TABLE t")

-- `y''ab nothing here`
abbrev harmless : List Item
harmless = Item.plain_byte b'y' ∷ Item.quote ∷ map Item.plain_byte (codes "ab nothing here")

validate_sql-literal_example :
    validate_sql false (codes "SELECT 'x''\\' DROP TABLE t' FROM u")
    ≡ validate_sql false (codes "SELECT 'y''ab nothing here' FROM u")
validate_sql-literal_example =
    validate_sql-literal false Quote.single b'S' (codes "ELECT ") hostile harmless (codes " FROM u")
      (unfold is_space in refl) (plain (codes "SELECT ") refl)
      ((ground arith, inr (ground arith)), (tt, (refl, content (codes " DROP TABLE t") refl)))
      ((ground arith, inr (ground arith)), (tt, content (codes "ab nothing here") refl)) refl
      (ground arith)

quoted : quote_ident (codes "users") ≡ ok (codes "`users`")
unfolding quote_ident
quoted = refl

read_quoted-quote_ident_example :
    (inner : Bytes) × (codes "`users`" ≡ b'`' ∷ inner) × (read_quoted inner ≡ some (codes "users"))
read_quoted-quote_ident_example = read_quoted-quote_ident (codes "users") (codes "`users`") quoted

columns : validate_select_columns (codes "id, u.name AS n") ≡ ok (codes "`id`, `u`.`name` AS `n`")
unfolding validate_select_columns
columns = refl

validate_select_columns-IsColumn_example :
    ((columns : List Bytes) × (codes "`id`, `u`.`name` AS `n`" ≡ or_star columns)
      × All IsColumn columns)
    × ((codes "id, u.name AS n" ≡ [])
        ⊎ All (λ p. contains (to_upper (codes "id, u.name AS n")) p ≡ false) dangerous_patterns)
validate_select_columns-IsColumn_example =
    validate_select_columns-IsColumn (codes "id, u.name AS n") columns

abbrev clause : Bytes
clause = codes "(age > 3) AND name = 'x;y'"

validate_where_clause-none_iff_example : (validate_where_clause clause ≡ none) ↔ (
    All (λ r. ¬ Found r.0.branches (strip_literals clause)) dangerous_where_patterns
    × (count_byte b'(' (strip_literals clause) ≡ count_byte b')' (strip_literals clause))
    × (length clause ≤ 1000))
validate_where_clause-none_iff_example = validate_where_clause-none_iff clause (ground arith)

mask_dsn_lem_example :
    mask_dsn (codes "app:secret@tcp(db:3306)/shop") ≡ codes "app:****@tcp(db:3306)/shop"
mask_dsn_lem_example =
    mask_dsn_lem (codes "app") (codes "secret") (codes "tcp(db:3306)/shop")
      (without b':' (codes "app") refl) (without b'@' (codes "app") refl)
      (without b'@' (codes "secret") refl)
