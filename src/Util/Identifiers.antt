-- ===== src/Util/Identifiers.antt =====
-- internal/util/identifiers.go: `QuoteIdent`, `MaskDSN`, `TruncateQuery`.
pub mod Quoting
pub mod Masking
use mysql_mcp_server.Prelude.{
  ℕ, ◌+◌, Bool, ◌||◌, List, [], ◌∷◌, ◌++◌, Option, none, some, Bytes, Result, ok, err, codes, equal,
  index, contains_any, length, take, drop, ltb, leb, if◌then◌else◌,
}

-- The errors of `QuoteIdent`.
pub data IdentError : Type 0 where
  empty_ident invalid_characters too_long : IdentError

-- " \t\n\r;`\\"
abbrev pub dangerous_characters : Bytes
dangerous_characters = b' ' ∷ 9 ∷ 10 ∷ 13 ∷ b';' ∷ b'`' ∷ 92 ∷ []

unfoldable pub quote_ident : Bytes → Result IdentError Bytes
unfolding equal contains_any
quote_ident name =
    if equal name []
    then err empty_ident
    else if contains_any name dangerous_characters
    then err invalid_characters
    else if ltb 64 (length name)
    then err too_long
    else ok ((b'`' ∷ []) ++ (name ++ (b'`' ∷ [])))

-- the part of `MaskDSN` behind its first test, at the position of the first `@`
mask_at : Bytes → ℕ → Option ℕ → Bytes
mask_at dsn at none = dsn
mask_at dsn at (some colon) =
    if ltb at colon then dsn else take (colon + 1) dsn ++ (codes "****" ++ drop at dsn)

unfoldable pub mask_dsn : Bytes → Bytes
unfolding mask_at index
mask_dsn dsn = elim (index dsn (codes "@")) [
  | none ↦ dsn
  | some at ↦ mask_at dsn at (index dsn (codes ":"))
]

-- `maxLen` is a natural number here; a negative one makes Go panic.
unfoldable pub truncate_query : Bytes → ℕ → Bytes
truncate_query query max_len =
    if leb (length query) max_len then query else take max_len query ++ codes "..."
