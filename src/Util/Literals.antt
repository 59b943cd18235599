-- ===== src/Util/Literals.antt =====
-- internal/util/sql_validator.go: `stripSQLLiterals`, the loop over the bytes of a statement.
pub mod Blanking
pub mod Contents
use mysql_mcp_server.Prelude.{ℕ, Bool, true, false, ◌&&◌, List, [], ◌∷◌, Bytes, ◌==◌, if◌then◌else◌}

pub data Quote : Type 0 where
  single double backtick : Quote

-- `modeNone`, and the three modes inside a literal
pub data Mode : Type 0 where
  outside : Mode
  inside : Quote → Mode

-- the byte that opens and closes a literal
abbrev pub mark : Quote → ℕ
mark single = 39
mark double = b'"'
mark backtick = b'`'

-- a backslash escapes the next byte: `mode == modeSingle || mode == modeDouble`
abbrev pub escapes : Quote → Bool
escapes backtick = false
escapes _ = true

-- `case modeNone`
abbrev pub opened : ℕ → Mode
opened c =
    if c == 39
    then inside single
    else if c == b'"'
    then inside double
    else if c == b'`'
    then inside backtick
    else outside

-- What one round does with a byte inside a literal and the byte behind it.
pub data Round : Type 0 where
  doubled closes escaped content : Round

abbrev pub round : Quote → ℕ → ℕ → Round
round q c d =
    if c == mark q
    then if d == mark q then doubled else closes
    else if escapes q && c == 92
    then escaped
    else content

abbrev pub blank : Quote → ℕ → ℕ
blank q c = if c == mark q then c else b' '

-- A doubled quote and an escape take two bytes at once: the `i++` of the loop.
unfoldable pub strip_from : Mode → Bytes → Bytes
strip_from m [] = []
strip_from outside (c ∷ s) = c ∷ strip_from (opened c) s
strip_from (inside q) (c ∷ []) = blank q c ∷ []
strip_from (inside q) (c ∷ d ∷ s) = elim (round q c d) [
  | doubled ↦ c ∷ b' ' ∷ strip_from (inside q) s
  | closes ↦ c ∷ strip_from outside (d ∷ s)
  | escaped ↦ b' ' ∷ b' ' ∷ strip_from (inside q) s
  | content ↦ b' ' ∷ strip_from (inside q) (d ∷ s)
]

unfoldable pub strip_literals : Bytes → Bytes
unfolding strip_from
strip_literals s = strip_from outside s
