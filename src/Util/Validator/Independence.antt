-- ===== src/Util/Validator/Independence.antt =====
-- The verdict of `ValidateSQL` does not depend on what stands inside a literal.
use mysql_mcp_server.Prelude.{
  ℕ, ◌≡◌, inl, inr, refl, ap, ◌∙◌, sym, Bool, true, false, not, List, [], ◌∷◌, ◌++◌, some, arith,
  Bytes, byte_upper, codes, is_space, equal, trim_space, trim_right, to_upper, has_prefix, contains,
  contains_byte, any, all, All, ◌==◌, ◌||◌, if◌then◌else◌, and-eq-true, Bool-cases,
}
use mysql_mcp_server.Prelude.Trim.{trim_right-append, trim_space-append}
use mysql_mcp_server.Util.Literals.{Quote, single, double, backtick, mark, strip_literals}
use mysql_mcp_server.Util.Literals.Blanking.{IsPlain}
use mysql_mcp_server.Util.Literals.Contents.{
  Item, IsItem, written, blanked, NotDoubled, strip_literals-literal,
}
use mysql_mcp_server.Util.Regex.{Pattern, match_string, is_blank, is_hex}
use mysql_mcp_server.Util.Regex.Prefix.{IsStop, is_fixed, match_string-stop, has_prefix-stop}
use mysql_mcp_server.Util.Validator.Patterns.{blocked_patterns, system_read_schema_patterns}
use mysql_mcp_server.Util.Validator.{
  empty_query, allowed_prefixes, is_trailing, target, first_match, verdict, check_statement,
  validate_sql,
}

mark-IsStop : (q : Quote) → IsStop (mark q)
unfolding byte_upper is_blank is_hex
mark-IsStop single = record { upper = refl; no_blank = refl; no_hex = refl }
mark-IsStop double = record { upper = refl; no_blank = refl; no_hex = refl }
mark-IsStop backtick = record { upper = refl; no_blank = refl; no_hex = refl }

mark-is_space : (q : Quote) → is_space (mark q) ≡ false
unfolding is_space
mark-is_space single = refl
mark-is_space double = refl
mark-is_space backtick = refl

-- The pattern is run on the scan, or is anchored and takes no quote.
abbrev sees_no_literal : Quote → Pattern → Bool
sees_no_literal q r = not (contains r.source (codes "^")) || all (is_fixed (mark q)) r.branches

blocked_see_no_literal : (q : Quote) → all (sees_no_literal q) blocked_patterns ≡ true
unfolding contains
blocked_see_no_literal single = refl
blocked_see_no_literal double = refl
blocked_see_no_literal backtick = refl

no_prefix_with_mark :
    (q : Quote) → all (λ w. all (λ d. not (mark q == d)) w) allowed_prefixes ≡ true
no_prefix_with_mark single = refl
no_prefix_with_mark double = refl
no_prefix_with_mark backtick = refl

module _ (q : Quote) (before t t' scan : Bytes) where
  target-literal :
      (r : Pattern)
      → sees_no_literal q r ≡ true
      → match_string r (target r (before ++ (mark q ∷ t)) scan)
        ≡ match_string r (target r (before ++ (mark q ∷ t')) scan)
  unfolding target
  target-literal r h = elim (Bool-cases (contains r.source (codes "^"))) [
    | inl e ↦ rw e (match_string-stop (mark q) (mark-IsStop q) t t' r before (rw e at h))
    | inr e ↦ rw e refl
  ]

  first_match-literal :
      (rs : List Pattern)
      → all (sees_no_literal q) rs ≡ true
      → first_match (λ r. target r (before ++ (mark q ∷ t)) scan) rs
        ≡ first_match (λ r. target r (before ++ (mark q ∷ t')) scan) rs
  unfolding first_match
  first_match-literal [] h = refl
  first_match-literal (r ∷ rs) h =
      let (h₁, h₂) = and-eq-true (sees_no_literal q r) (all (sees_no_literal q) rs) h in
      rw (target-literal r h₁) (rw (first_match-literal rs h₂))

  prefixes-literal :
      (ws : List Bytes)
      → all (λ w. all (λ d. not (mark q == d)) w) ws ≡ true
      → any (λ w. has_prefix (to_upper (before ++ (mark q ∷ t))) w) ws
        ≡ any (λ w. has_prefix (to_upper (before ++ (mark q ∷ t'))) w) ws
  prefixes-literal [] h = refl
  prefixes-literal (w ∷ ws) h =
      let (h₁, h₂) =
        and-eq-true (all (λ d. not (mark q == d)) w) (all (λ w. all (λ d. not (mark q == d)) w) ws)
          h in
      rw (has_prefix-stop (mark q) (mark-IsStop q) t t' before w h₁) (rw (prefixes-literal ws h₂))

  check_statement-literal :
      (allow : Bool)
      → check_statement allow (before ++ (mark q ∷ t)) scan
        ≡ check_statement allow (before ++ (mark q ∷ t')) scan
  unfolding check_statement
  check_statement-literal allow = λ i.
      verdict (contains_byte (trim_right is_trailing scan) b';')
        (first_match-literal blocked_patterns (blocked_see_no_literal q) i)
        (first_match (λ r. scan) (if not allow then system_read_schema_patterns else []))
        (prefixes-literal allowed_prefixes (no_prefix_with_mark q) i)

NotDoubled-trim_right :
    (q : Quote) (s : Bytes) → NotDoubled q s → NotDoubled q (trim_right is_space s)
unfolding trim_right
NotDoubled-trim_right q [] h = tt
NotDoubled-trim_right q (c ∷ s) h = ground arith

trim_space-literal :
    (q : Quote) (first : ℕ) (before body rest : Bytes)
    → is_space first ≡ false
    → trim_space (first ∷ (before ++ (mark q ∷ (body ++ (mark q ∷ rest)))))
      ≡ first ∷ (before ++ (mark q ∷ (body ++ (mark q ∷ trim_right is_space rest))))
trim_space-literal q first before body rest x =
    trim_space-append first before (mark q) (body ++ (mark q ∷ rest)) x (mark-is_space q)
    ∙ ap (λ t. first ∷ (before ++ (mark q ∷ t)))
        (trim_right-append is_space body (mark q) rest (mark-is_space q))

validate_sql_trimmed :
    (allow : Bool) (text t : Bytes) (c : ℕ)
    → trim_space text ≡ c ∷ t
    → validate_sql allow text ≡ check_statement allow (c ∷ t) (strip_literals (c ∷ t))
unfolding validate_sql
validate_sql_trimmed allow text t c h =
    ap (λ s. if equal s [] then some empty_query else check_statement allow s (strip_literals s)) h

-- Two texts that differ only in the body of their first literal get the same verdict, with the same
-- reason. The bodies are of bytes that stand for themselves, escapes with a backslash (not in
-- backticks) and doubled quotes; they have one length and their doubled quotes at the same places.
-- The text does not begin with white space, and the literal's end is not followed by its quote.
pub validate_sql-literal :
    (allow : Bool) (q : Quote) (first : ℕ) (before : Bytes) (body body' : List Item) (rest : Bytes)
    → is_space first ≡ false
    → All IsPlain (first ∷ before)
    → All (IsItem q) body
    → All (IsItem q) body'
    → blanked q body ≡ blanked q body'
    → NotDoubled q rest
    → validate_sql allow (first ∷ (before ++ (mark q ∷ (written q body ++ (mark q ∷ rest)))))
      ≡ validate_sql allow (first ∷ (before ++ (mark q ∷ (written q body' ++ (mark q ∷ rest)))))
validate_sql-literal allow q first before body body' rest x h k k' l d =
    validate_sql_trimmed allow _ _ first (trim_space-literal q first before (written q body) rest x)
    ∙ ap
        (check_statement allow (first ∷ (before ++ (mark q ∷ (written q body ++ (mark q ∷ tail))))))
        scans
    ∙ check_statement-literal q (first ∷ before) (written q body ++ (mark q ∷ tail))
        (written q body' ++ (mark q ∷ tail)) _ allow
    ∙ sym (
        validate_sql_trimmed allow _ _ first
          (trim_space-literal q first before (written q body') rest x))
  where
    tail : Bytes
    tail = trim_right is_space rest

    d' : NotDoubled q tail
    d' = NotDoubled-trim_right q rest d

    scans :
        strip_literals (first ∷ (before ++ (mark q ∷ (written q body ++ (mark q ∷ tail)))))
        ≡ strip_literals (first ∷ (before ++ (mark q ∷ (written q body' ++ (mark q ∷ tail)))))
    scans =
        strip_literals-literal q (first ∷ before) body tail h k d'
        ∙ ap (λ t. first ∷ (before ++ (mark q ∷ (t ++ (mark q ∷ strip_literals tail))))) l
        ∙ sym (strip_literals-literal q (first ∷ before) body' tail h k' d')
