-- ===== src/Parser/Schemas/Enforced.antt =====
-- cmd/mysql-mcp-server/access.go and internal/util/sql_parser.go together: the allow list and a query.
use mysql_mcp_server.Prelude.{
  ◌≡◌, ◌∙◌, refl, sym, subst, ap, inl, inr, true, false, List, [], ◌∷◌, Option, none, some, Bytes,
  arith, equal, equal_iff, to_lower, trim_space, any, All, ok, Bool-cases,
}
use mysql_mcp_server.Prelude.Assoc.{has}
use mysql_mcp_server.Access.{
  Names, access_control_enabled, database_allowed, require_referenced_schemas,
}
use mysql_mcp_server.Access.Listed.{require_referenced_schemas-none_iff}
use mysql_mcp_server.Parser.Syntax.{SelectStatement, query, Grammar}
use mysql_mcp_server.Parser.Schemas.{
  keys_read, collect_select_statement, referenced_schema_qualifiers, collect_pieces, collect_one,
  collect_stmt, keys_of, reading_of,
}
use mysql_mcp_server.Parser.Schemas.Mentions.{mentioned, stands_as, has-collect}

-- What holds of all keys holds of a key that the map has.
All-has : (P : Bytes → Type 0) (m : Names) (k : Bytes) → All P (keys_of m) → has k m ≡ true → P k
unfolding has
All-has P [] k h e = absurd (cc)
All-has P ((j, u) ∷ m) k (p, h) e = elim (Bool-cases (equal j k)) [
  | inl f ↦ subst P ((equal_iff j k).0 f) p
  | inr f ↦ All-has P m k h (rw f at e)
]

some-injective : {A : Type 0} {a b : A} → ◌≡◌ {A = Option A} (some a) (some b) → a ≡ b
some-injective h = cc

collected :
    (g : Grammar) (text piece : Bytes) (s : SelectStatement)
    → equal (trim_space text) [] ≡ false
    → g.split (trim_space text) ≡ some (piece ∷ [])
    → g.parse piece ≡ some (query s)
    → referenced_schema_qualifiers g text ≡ ok (collect_select_statement s [])
unfolding referenced_schema_qualifiers collect_pieces collect_one collect_stmt
collected g text piece s n e f = rw (n, e, f) refl

-- A qualifier of the list that is not blank makes some key stand for it.
any-All :
    (P : Bytes → Type 0) (qs : List Bytes)
    → ((k : Bytes) → any (stands_as k) qs ≡ true → P k)
    → All (λ q. equal (trim_space q) [] ≡ false → P (to_lower (trim_space q))) qs
any-All P [] h = tt
any-All P (q ∷ qs) h = (
  (λ e.
      h (to_lower (trim_space q))
        (ground (arith, equal_iff (to_lower (trim_space q)) (to_lower (trim_space q))))),
  any-All P qs (λ k e. h k (ground arith)),
)

-- With an allow list, a single query that passes the check of its references mentions only allowed
-- databases, where the parser layer looks, which is not the ON condition of a join and not the ORDER
-- BY of a union: each qualifier that is not blank is one, trimmed and in lower case.
pub require_referenced_schemas-mentioned :
    (g : Grammar) (set : Names) (text piece : Bytes) (s : SelectStatement)
    → access_control_enabled set ≡ true
    → equal (trim_space text) [] ≡ false
    → g.split (trim_space text) ≡ some (piece ∷ [])
    → g.parse piece ≡ some (query s)
    → require_referenced_schemas (reading_of g) set text ≡ none
    → All
        (λ q.
          equal (trim_space q) [] ≡ false → database_allowed set (to_lower (trim_space q)) ≡ true)
        (mentioned s)
require_referenced_schemas-mentioned g set text piece s on n e f h =
    elim ((require_referenced_schemas-none_iff (reading_of g) set text).0 h) [
      | inl d ↦ absurd (ground arith)
      | inr (c, (refs, r, all_allowed)) ↦
          any-All (λ k. database_allowed set k ≡ true) (mentioned s)
            (λ k m.
              All-has (λ j. database_allowed set j ≡ true) (collect_select_statement s []) k
                (subst (All (λ j. database_allowed set j ≡ true))
                  (some-injective (sym r ∙ ap keys_read (collected g text piece s n e f)))
                  all_allowed)
                (has-collect k s [] ∙ (ground arith)))
    ]
