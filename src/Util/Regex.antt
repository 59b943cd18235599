-- ===== src/Util/Regex.antt =====
-- The regular expressions of internal/util/sql_validator.go: a matcher for the constructs of Go's
-- `regexp` that they use. All of them are case-insensitive. A group of alternatives is written
-- out, one branch for each, so a pattern is a list of branches and a branch a list of atoms.
pub mod Meaning
pub mod Words
pub mod Prefix
use mysql_mcp_server.Prelude.{
  ℕ, Bool, true, false, not, ◌&&◌, ◌||◌, List, [], ◌∷◌, Option, none, some, Bytes, codes, within,
  byte_upper, any, map, ◌==◌,
}

pub data Atom : Type 0 where
  -- one byte, given in upper case
  lit : ℕ → Atom
  -- `\b`
  boundary : Atom
  -- `\s` and `\s*`
  space spaces : Atom
  -- `^`
  start : Atom
  -- `[0-9a-fA-F]`
  hex : Atom

abbrev pub Branch : Type 0
Branch = List Atom

-- `\w`, over ASCII
unfoldable pub is_word : ℕ → Bool
is_word c = within b'a' b'z' c || within b'A' b'Z' c || within b'0' b'9' c || c == b'_'

-- `\s`: [\t\n\f\r ]
unfoldable pub is_blank : ℕ → Bool
is_blank c = c == 9 || c == 10 || c == 12 || c == 13 || c == b' '

unfoldable pub is_hex : ℕ → Bool
is_hex c = within b'a' b'f' c || within b'A' b'F' c || within b'0' b'9' c

abbrev pub word_at : Option ℕ → Bool
word_at none = false
word_at (some c) = is_word c

abbrev pub head? : Bytes → Option ℕ
head? [] = none
head? (c ∷ s) = some c

abbrev pub differ : Bool → Bool → Bool
differ true b = not b
differ false b = b

abbrev pub at_start : Option ℕ → Bool
at_start none = true
at_start (some c) = false

-- Whether a branch matches from here on, where `prev` is the byte in front.
unfoldable pub match_here : Branch → Option ℕ → Bytes → Bool
unfolding byte_upper is_word is_blank is_hex
match_here [] prev s = true
match_here (lit c ∷ p) prev [] = false
match_here (lit c ∷ p) prev (x ∷ s) = elim (byte_upper x == c) [
  | true ↦ match_here p (some x) s
  | false ↦ false
]
match_here (hex ∷ p) prev [] = false
match_here (hex ∷ p) prev (x ∷ s) = elim (is_hex x) [
  | true ↦ match_here p (some x) s
  | false ↦ false
]
match_here (space ∷ p) prev [] = false
match_here (space ∷ p) prev (x ∷ s) = elim (is_blank x) [
  | true ↦ match_here p (some x) s
  | false ↦ false
]
match_here (boundary ∷ p) prev s = elim (differ (word_at prev) (word_at (head? s))) [
  | true ↦ match_here p prev s
  | false ↦ false
]
match_here (start ∷ p) prev s = elim (at_start prev) [ true ↦ match_here p prev s | false ↦ false ]
match_here (spaces ∷ p) prev [] = match_here p prev []
match_here (spaces ∷ p) prev (x ∷ s) = elim (match_here p prev (x ∷ s)) [
  | true ↦ true
  | false ↦ elim (is_blank x) [ true ↦ match_here (spaces ∷ p) (some x) s | false ↦ false ]
]

-- Whether a branch matches here or further on.
unfoldable pub search_from : Branch → Option ℕ → Bytes → Bool
unfolding match_here
search_from p prev [] = match_here p prev []
search_from p prev (x ∷ s) = match_here p prev (x ∷ s) || search_from p (some x) s

-- A compiled pattern: its source, as `pattern.String()` gives it, and its branches.
pub record Pattern : Type 0 where
  pub source : Bytes
  pub branches : List Branch

-- `pattern.MatchString(s)`
unfoldable pub match_string : Pattern → Bytes → Bool
unfolding search_from
match_string r s = any (λ p. search_from p none s) r.branches

-- A word of the pattern, letter by letter.
abbrev pub letters : Bytes → Branch
letters [] = []
letters (c ∷ s) = lit c ∷ letters s
