-- ===== src/Util/Validator/Comments.antt =====
-- What the patterns without operators exclude, read by `strings.Contains`, and the switch that
-- opens the system schemas.
use mysql_mcp_server.Prelude.{
  ℕ, zero, suc, ◌≡◌, ◌⊎◌, inl, inr, refl, Bool, true, false, List, [], ◌∷◌, Option, none, some,
  Bytes, codes, equal, to_upper, has_prefix, contains, contains_byte, trim_right, trim_space, any,
  All, drop, arith, Bool-cases, within,
}
use mysql_mcp_server.Util.Literals.{strip_literals}
use mysql_mcp_server.Util.Regex.{match_string, letters}
use mysql_mcp_server.Util.Regex.Meaning.{Found, match_string_iff}
use mysql_mcp_server.Util.Regex.Words.{search_from-letters}
use mysql_mcp_server.Util.Validator.Patterns.{blocked_patterns, system_read_schema_patterns}
use mysql_mcp_server.Util.Validator.{
  blocked, is_trailing, allowed_prefixes, target, first_match, verdict, check_statement,
  validate_sql,
}
use mysql_mcp_server.Util.Validator.Verdict.{validate_sql-none_iff}

All-drop {ℓ κ} : {A : Type ℓ} (P : A → Type κ) (n : ℕ) (xs : List A) → All P xs → All P (drop n xs)
All-drop P zero xs h = h
All-drop P (suc n) [] h = tt
All-drop P (suc n) (x ∷ xs) h = All-drop P n xs h.1

-- A byte that upper case neither changes nor yields.
abbrev IsNoLetter : ℕ → Type 0
IsNoLetter c = (within b'a' b'z' c ≡ false) × (within b'A' b'Z' c ≡ false)

has_prefix-to_upper : (s w : Bytes) → All IsNoLetter w → has_prefix (to_upper s) w ≡ has_prefix s w
unfolding has_prefix to_upper
has_prefix-to_upper s [] h = ground arith
has_prefix-to_upper [] (c ∷ w) h = refl
has_prefix-to_upper (x ∷ s) (c ∷ w) (p, h) = ground (arith, has_prefix-to_upper s w h)

contains-to_upper : (s w : Bytes) → All IsNoLetter w → contains (to_upper s) w ≡ contains s w
unfolding contains to_upper
contains-to_upper [] w h = refl
contains-to_upper (x ∷ s) w h =
    ground (arith, has_prefix-to_upper (x ∷ s) w h, contains-to_upper s w h)

-- A pattern that is one word without letters and no anchor.
not_found :
    (w : Bytes) (source : Bytes) (s scan : Bytes)
    → All IsNoLetter w
    → contains source (codes "^") ≡ false
    → ¬ Found
        (letters w ∷ [])
        (target (record { source = source; branches = letters w ∷ [] }) s scan)
    → contains scan w ≡ false
unfolding target
not_found w source s scan h a n = elim (Bool-cases (contains scan w)) [
  | inl e ↦ absurd (
      n (
        rw a (
          (match_string_iff (record { source = source; branches = letters w ∷ [] }) scan).0 (
            unfold match_string in
            rw (search_from-letters w none scan) (rw (contains-to_upper scan w h) (rw e))))))
  | inr e ↦ e
]

-- An accepted text has no comment outside literals: neither `--` nor `/*` nor `#`.
pub validate_sql_no_comments :
    (allow : Bool) (text : Bytes)
    → validate_sql allow text ≡ none
    → (contains (strip_literals (trim_space text)) (codes "--") ≡ false)
      × (contains (strip_literals (trim_space text)) (codes "/*") ≡ false)
      × (contains (strip_literals (trim_space text)) (codes "#") ≡ false)
unfolding contains
validate_sql_no_comments allow text h =
    let t = trim_space text in
    let scan = strip_literals t in
    let last =
      All-drop (λ r. ¬ Found r.branches (target r t scan)) 40 blocked_patterns
        ((validate_sql-none_iff allow text).0 h).1.no_blocked in
    (
      not_found (codes "--") (codes "--") t scan ((refl, refl), ((refl, refl), tt)) refl last.0,
      not_found (codes "/*") (codes "/\\*") t scan ((refl, refl), ((refl, refl), tt)) refl last.1.0,
      not_found (codes "#") (codes "#") t scan ((refl, refl), tt) refl last.1.1.0,
    )

verdict_allow :
    (m r : Bool) (f g : Option Bytes)
    → (verdict m f g r ≡ none → verdict m f none r ≡ none)
      × (verdict m f none r ≡ none
          → (verdict m f g r ≡ none)
            ⊎ ((source : Bytes) × (g ≡ some source) × (verdict m f g r ≡ some (blocked source))))
unfolding verdict
verdict_allow m r f none = (λ h. h, λ h. inl h)
verdict_allow m r f (some source) = (ground arith, λ h. inr (source, refl, ground arith))

check_statement_allow :
    (s scan : Bytes)
    → (check_statement false s scan ≡ none → check_statement true s scan ≡ none)
      × (check_statement true s scan ≡ none
          → (check_statement false s scan ≡ none)
            ⊎ ((source : Bytes) × (first_match (λ r. scan) system_read_schema_patterns
                  ≡ some source)
                × (check_statement false s scan ≡ some (blocked source))))
unfolding check_statement
check_statement_allow s scan =
    verdict_allow (contains_byte (trim_right is_trailing scan) b';')
      (any (λ prefix. has_prefix (to_upper s) prefix) allowed_prefixes)
      (first_match (λ r. target r s scan) blocked_patterns)
      (first_match (λ r. scan) system_read_schema_patterns)

-- Allowing the system schemas only accepts more, and what it accepts besides are texts in which
-- a pattern of the three schemas occurs outside literals.
pub validate_sql_allow :
    (text : Bytes)
    → (validate_sql false text ≡ none → validate_sql true text ≡ none)
      × (validate_sql true text ≡ none
          → (validate_sql false text ≡ none)
            ⊎ ((source : Bytes) × (first_match
                    (λ r. strip_literals (trim_space text))
                    system_read_schema_patterns
                  ≡ some source)
                × (validate_sql false text ≡ some (blocked source))))
unfolding validate_sql
validate_sql_allow text = elim (Bool-cases (equal (trim_space text) [])) [
  | inl e ↦ rw e (λ h. h, λ h. inl h)
  | inr e ↦ rw e (check_statement_allow (trim_space text) (strip_literals (trim_space text)))
]
