-- ===== src/Util/Columns.antt =====
-- internal/util/sql_validator.go: `ValidateSelectColumns`.
pub mod Shape
use mysql_mcp_server.Prelude.{
  ℕ, ◌+◌, Bool, true, false, List, [], ◌∷◌, ◌++◌, Option, none, some, Bytes, codes, equal, to_upper,
  contains, index, take, drop, trim_space, split_on, join, if◌then◌else◌, Result, ok, err, wrap,
  ◌>>=◌,
}
use mysql_mcp_server.Util.Identifiers.{IdentError, quote_ident}

pub data ColumnError : Type 0 where
  forbidden_pattern : Bytes → ColumnError
  invalid_reference : ColumnError
  invalid_table invalid_column invalid_name invalid_alias : IdentError → ColumnError

-- `dangerousPatterns`
abbrev pub dangerous_patterns : List Bytes
dangerous_patterns =
    codes "("
    ∷ codes ")"
    ∷ codes ";"
    ∷ codes "--"
    ∷ codes "/*"
    ∷ codes "*/"
    ∷ codes "@@"
    ∷ codes "SLEEP"
    ∷ codes "BENCHMARK"
    ∷ codes "LOAD_FILE"
    ∷ codes "INTO"
    ∷ codes "OUTFILE"
    ∷ codes "DUMPFILE"
    ∷ codes "UNION"
    ∷ codes "INFORMATION_SCHEMA"
    ∷ []

unfoldable pub first_contained : Bytes → List Bytes → Option Bytes
unfolding contains
first_contained upper [] = none
first_contained upper (p ∷ ps) = if contains upper p then some p else first_contained upper ps

-- `column AS alias`, or a column alone with the empty alias
unfoldable pub split_alias : Bytes → Bytes × Bytes
unfolding index trim_space
split_alias part = elim (index (to_upper part) (codes " AS ")) [
  | none ↦ (part, [])
  | some idx ↦ (trim_space (take idx part), trim_space (drop (idx + 4) part))
]

-- `table.column`, split at the dots
unfoldable pub quote_reference : List Bytes → Result ColumnError Bytes
unfolding quote_ident
quote_reference (table ∷ column ∷ []) = do
  table_part ← wrap invalid_table (quote_ident (trim_space table))
  col_part ← wrap invalid_column (quote_ident (trim_space column))
  ok (table_part ++ (codes "." ++ col_part))
quote_reference _ = err invalid_reference

unfoldable pub quote_column : Bytes → Result ColumnError Bytes
unfolding quote_reference split_on contains
quote_column name =
    if contains name (codes ".")
    then quote_reference (split_on b'.' name)
    else wrap invalid_name (quote_ident name)

unfoldable pub quote_alias : Bytes → Bytes → Result ColumnError Bytes
unfolding equal
quote_alias column alias =
    if equal alias []
    then ok column
    else (wrap invalid_alias (quote_ident alias) >>= λ quoted.
        ok (column ++ (codes " AS " ++ quoted)))

-- one part of the list that is not empty
unfoldable pub quote_part : Bytes × Bytes → Result ColumnError Bytes
unfolding quote_column quote_alias
quote_part (column, alias) =
    if equal column (codes "*")
    then ok (codes "*")
    else (quote_column column >>= λ quoted. quote_alias quoted alias)

-- the loop over the parts
unfoldable pub quote_parts : List Bytes → Result ColumnError (List Bytes)
unfolding quote_part split_alias
quote_parts [] = ok []
quote_parts (part ∷ parts) = elim (equal (trim_space part) []) [
  | true ↦ quote_parts parts
  | false ↦ do
    column ← quote_part (split_alias (trim_space part))
    columns ← quote_parts parts
    ok (column ∷ columns)
]

abbrev pub or_star : List Bytes → Bytes
or_star [] = codes "*"
or_star (column ∷ columns) = join (codes ", ") (column ∷ columns)

-- behind the loop over the dangerous patterns
abbrev pub unless_found : Option Bytes → Result ColumnError Bytes → Result ColumnError Bytes
unless_found (some pattern) r = err (forbidden_pattern pattern)
unless_found none r = r

unfoldable pub validate_select_columns : Bytes → Result ColumnError Bytes
unfolding quote_parts first_contained join to_upper
validate_select_columns select =
    if equal select []
    then ok (codes "*")
    else unless_found (first_contained (to_upper select) dangerous_patterns)
        (quote_parts (split_on b',' select) >>= λ columns. ok (or_star columns))
