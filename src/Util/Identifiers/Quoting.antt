-- ===== src/Util/Identifiers/Quoting.antt =====
-- `QuoteIdent` lets through exactly the names that are read back from the quotes.
use mysql_mcp_server.Prelude.{
  ℕ, ◌≤◌, ◌≡◌, ◌≢◌, ◌↔◌, refl, true, false, [], ◌∷◌, ◌++◌, Option, none, some, arith, Bytes, ok,
  contains_any, contains_byte, length, if◌then◌else◌, ◌==◌, All, equal_iff, equal_refl,
}
use mysql_mcp_server.Util.Identifiers.{dangerous_characters, quote_ident}

-- No byte that ends the quotes or the statement.
abbrev pub IsHarmless : ℕ → Type 0
IsHarmless c = contains_byte dangerous_characters c ≡ false

abbrev pub IsIdentifier : Bytes → Type 0
IsIdentifier name = (name ≢ []) × All IsHarmless name × (length name ≤ 64)

-- A quoted identifier, read up to its closing backtick; `none` where that is not at the very end.
-- MySQL would read a doubled backtick inside the quotes as one; it is `none` here, which is stricter.
pub read_quoted : Bytes → Option Bytes
read_quoted [] = none
read_quoted (c ∷ []) = if c == b'`' then some [] else none
read_quoted (c ∷ d ∷ s) = elim (c == b'`') [
  | true ↦ none
  | false ↦ elim (read_quoted (d ∷ s)) [ none ↦ none | some t ↦ some (c ∷ t) ]
]

contains_any-All :
    (name : Bytes) → contains_any name dangerous_characters ≡ false → All IsHarmless name
unfolding contains_any
contains_any-All [] h = tt
contains_any-All (c ∷ s) h = ground (arith, contains_any-All s)

All-contains_any :
    (name : Bytes) → All IsHarmless name → contains_any name dangerous_characters ≡ false
unfolding contains_any
All-contains_any [] h = refl
All-contains_any (c ∷ s) (p, h) = ground (arith, All-contains_any s h)

ok_parts :
    (name out : Bytes)
    → quote_ident name ≡ ok out
    → IsIdentifier name × (out ≡ (b'`' ∷ []) ++ (name ++ (b'`' ∷ [])))
unfolding quote_ident
ok_parts name out h = (
  (ground (arith, equal_refl name), contains_any-All name (ground arith), ground arith),
  ground arith,
)

accepts :
    (name : Bytes)
    → IsIdentifier name
    → quote_ident name ≡ ok ((b'`' ∷ []) ++ (name ++ (b'`' ∷ [])))
unfolding quote_ident
accepts name (p, h, l) = ground (arith, equal_iff name [], All-contains_any name h)

-- `QuoteIdent` succeeds exactly on the names that are not empty, have at most 64 bytes, and hold
-- no blank, tab, line feed, carriage return, semicolon, backtick or backslash.
pub quote_ident-ok_iff :
    (name : Bytes) → ((out : Bytes) × (quote_ident name ≡ ok out)) ↔ IsIdentifier name
quote_ident-ok_iff name = (λ h. (ok_parts name h.0 h.1).0, λ h. (_, accepts name h))

read_quoted-append :
    (name : Bytes) → All IsHarmless name → read_quoted (name ++ (b'`' ∷ [])) ≡ some name
unfolding read_quoted contains_byte
read_quoted-append [] h = refl
read_quoted-append (c ∷ []) h = ground arith
read_quoted-append (c ∷ d ∷ s) (p, h) = ground (arith, read_quoted-append (d ∷ s) h)

-- What `QuoteIdent` returns is a backtick and a text that MySQL reads back as the very name: the
-- closing backtick is the last byte, so nothing of the name stands outside the quotes.
pub read_quoted-quote_ident :
    (name out : Bytes)
    → quote_ident name ≡ ok out
    → (inner : Bytes) × (out ≡ b'`' ∷ inner) × (read_quoted inner ≡ some name)
read_quoted-quote_ident name out h =
    let (v, e) = ok_parts name out h in (name ++ (b'`' ∷ []), e, read_quoted-append name v.1)
