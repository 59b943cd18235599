-- ===== src/Util/Columns/Shape.antt =====
-- What `ValidateSelectColumns` puts into a statement.
use mysql_mcp_server.Prelude.{
  ◌≡◌, ◌⊎◌, inl, inr, refl, sym, subst, false, List, [], ◌∷◌, ◌++◌, Option, none, some, Bytes,
  codes, equal, equal_iff, to_upper, contains, trim_space, split_on, All, Bool-cases, Result, ok,
  wrap, ◌>>=◌, bind-eq-ok, wrap-eq-ok, ok-injective,
}
use mysql_mcp_server.Util.Identifiers.{quote_ident}
use mysql_mcp_server.Util.Columns.{
  ColumnError, invalid_table, invalid_column, invalid_name, invalid_alias, dangerous_patterns,
  first_contained, split_alias, quote_reference, quote_column, quote_alias, quote_part, quote_parts,
  or_star, unless_found, validate_select_columns,
}

-- What `QuoteIdent` returns for some name.
abbrev pub IsQuoted : Bytes → Type 0
IsQuoted out = (name : Bytes) × (quote_ident name ≡ ok out)

pub data IsReference : Bytes → Type 0 where
  bare : {out : Bytes} → IsQuoted out → IsReference out
  qualified :
      {out : Bytes} (table column : Bytes)
      → IsQuoted table
      → IsQuoted column
      → out ≡ table ++ (codes "." ++ column)
      → IsReference out

-- The star, a quoted column, or one with a quoted alias.
pub data IsColumn : Bytes → Type 0 where
  star : {out : Bytes} → out ≡ codes "*" → IsColumn out
  plain : {out : Bytes} → IsReference out → IsColumn out
  aliased :
      {out : Bytes} (column alias : Bytes)
      → IsReference column
      → IsQuoted alias
      → out ≡ column ++ (codes " AS " ++ alias)
      → IsColumn out

quote_reference-IsReference :
    (parts : List Bytes) {out : Bytes} → quote_reference parts ≡ ok out → IsReference out
unfolding quote_reference
quote_reference-IsReference [] h = cc
quote_reference-IsReference (t ∷ []) h = cc
quote_reference-IsReference (t ∷ c ∷ d ∷ rest) h = cc
quote_reference-IsReference (t ∷ c ∷ []) h =
    let (table, e, k) = bind-eq-ok (wrap invalid_table (quote_ident (trim_space t))) _ h in
    let (column, f, l) = bind-eq-ok (wrap invalid_column (quote_ident (trim_space c))) _ k in
    qualified table column (trim_space t, wrap-eq-ok invalid_table _ e)
      (trim_space c, wrap-eq-ok invalid_column _ f) (sym (ok-injective l))

quote_column-IsReference :
    (name : Bytes) {out : Bytes} → quote_column name ≡ ok out → IsReference out
unfolding quote_column
quote_column-IsReference name h = elim (Bool-cases (contains name (codes "."))) [
  | inl e ↦ quote_reference-IsReference (split_on b'.' name) (rw e at h)
  | inr e ↦ bare (name, wrap-eq-ok invalid_name (quote_ident name) (rw e at h))
]

quote_alias-IsColumn :
    (column alias : Bytes) {out : Bytes}
    → IsReference column
    → quote_alias column alias ≡ ok out
    → IsColumn out
unfolding quote_alias
quote_alias-IsColumn column alias {out} r h = elim (Bool-cases (equal alias [])) [
  | inl e ↦
      let k : ◌≡◌ {A = Result ColumnError Bytes} (ok column) (ok out) = rw e at h in
      plain (rw (← ok-injective k) r)
  | inr e ↦
      let (quoted, f, k) = bind-eq-ok (wrap invalid_alias (quote_ident alias)) _ (rw e at h) in
      aliased column quoted r (alias, wrap-eq-ok invalid_alias _ f) (sym (ok-injective k))
]

quote_part-IsColumn :
    (column alias : Bytes) {out : Bytes} → quote_part (column, alias) ≡ ok out → IsColumn out
unfolding quote_part
quote_part-IsColumn column alias {out} h = elim (Bool-cases (equal column (codes "*"))) [
  | inl e ↦
      let k : ◌≡◌ {A = Result ColumnError Bytes} (ok (codes "*")) (ok out) = rw e at h in
      star (sym (ok-injective k))
  | inr e ↦
      let (quoted, f, k) = bind-eq-ok (quote_column column) _ (rw e at h) in
      quote_alias-IsColumn quoted alias (quote_column-IsReference column f) k
]

quote_parts-IsColumn :
    (parts : List Bytes) {out : List Bytes} → quote_parts parts ≡ ok out → All IsColumn out
unfolding quote_parts
quote_parts-IsColumn [] {out} h = subst (All IsColumn) (ok-injective h) tt
quote_parts-IsColumn (part ∷ parts) {out} h = elim (Bool-cases (equal (trim_space part) [])) [
  | inl e ↦ quote_parts-IsColumn parts (rw (e, quote_parts) at h)
  | inr e ↦
      let split = split_alias (trim_space part) in
      let (column, f, k) =
        bind-eq-ok (quote_part split)
          (λ column. quote_parts parts >>= λ columns. ok (column ∷ columns))
          (rw (e, quote_parts) at h) in
      let (columns, g, l) = bind-eq-ok (quote_parts parts) _ k in
      subst (All IsColumn) (ok-injective l)
        (quote_part-IsColumn split.0 split.1 f, quote_parts-IsColumn parts g)
]

first_contained-none :
    (upper : Bytes) (ps : List Bytes)
    → first_contained upper ps ≡ none
    → All (λ p. contains upper p ≡ false) ps
unfolding first_contained
first_contained-none upper [] h = tt
first_contained-none upper (p ∷ ps) h = elim (Bool-cases (contains upper p)) [
  | inl e ↦ absurd (let k : some p ≡ none = rw e at h in cc)
  | inr e ↦ (e, first_contained-none upper ps (rw e at h))
]

unless_found-ok :
    (f : Option Bytes) (r : Result ColumnError Bytes) {out : Bytes}
    → unless_found f r ≡ ok out
    → (f ≡ none) × (r ≡ ok out)
unless_found-ok none r h = (refl, h)
unless_found-ok (some p) r h = cc

-- The text that `ValidateSelectColumns` returns is a list of columns, joined by commas: each is
-- the star, or a name or `table.name` with every part quoted by `QuoteIdent`, alone or with a
-- quoted alias. A select list that has an effect on it holds none of the dangerous patterns.
pub validate_select_columns-IsColumn :
    (select : Bytes) {out : Bytes}
    → validate_select_columns select ≡ ok out
    → ((columns : List Bytes) × (out ≡ or_star columns) × All IsColumn columns)
      × ((select ≡ []) ⊎ All (λ p. contains (to_upper select) p ≡ false) dangerous_patterns)
unfolding validate_select_columns
validate_select_columns-IsColumn select {out} h = elim (Bool-cases (equal select [])) [
  | inl e ↦ (([], sym (ok-injective (rw e at h)), tt), inl ((equal_iff select []).0 e))
  | inr e ↦
      let (f, k) =
        unless_found-ok (first_contained (to_upper select) dangerous_patterns) _ (rw e at h) in
      let (columns, g, l) = bind-eq-ok (quote_parts (split_on b',' select)) _ k in
      (
        (columns, sym (ok-injective l), quote_parts-IsColumn (split_on b',' select) g),
        inr (first_contained-none (to_upper select) dangerous_patterns f),
      )
]
