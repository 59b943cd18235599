-- ===== src/Util/Regex/Words.antt =====
-- Patterns without operators, and what a match does not depend on.
use mysql_mcp_server.Prelude.{
  ℕ, ◌≡◌, refl, [], ◌∷◌, Option, some, arith, Bytes, to_upper, has_prefix, contains,
}
use mysql_mcp_server.Util.Regex.{match_here, search_from, letters}

match_here-letters :
    (w : Bytes) (prev : Option ℕ) (s : Bytes)
    → match_here (letters w) prev s ≡ has_prefix (to_upper s) w
unfolding match_here has_prefix to_upper
match_here-letters [] prev [] = refl
match_here-letters [] prev (x ∷ s) = refl
match_here-letters (c ∷ w) prev [] = refl
match_here-letters (c ∷ w) prev (x ∷ s) = ground (arith, match_here-letters w (some x) s)

-- The search for a word is `strings.Contains` on the text in upper case.
pub search_from-letters :
    (w : Bytes) (prev : Option ℕ) (s : Bytes)
    → search_from (letters w) prev s ≡ contains (to_upper s) w
unfolding search_from contains to_upper
search_from-letters w prev [] = ground (arith, match_here-letters w prev [])
search_from-letters w prev (x ∷ s) =
    ground (arith, match_here-letters w prev (x ∷ s), search_from-letters w (some x) s)
