-- ===== src/Util/WhereClause/Accepted.antt =====
-- What `ValidateWhereClause` accepts.
use mysql_mcp_server.Prelude.{
  ℕ, ◌≤◌, ◌≡◌, ◌≢◌, ◌↔◌, inl, inr, refl, Bool, true, false, List, [], ◌∷◌, Option, none, some,
  arith, Bytes, equal, equal_iff, length, ltb, ==_iff, All, Bool-cases,
}
use mysql_mcp_server.Util.Literals.{strip_literals}
use mysql_mcp_server.Util.Regex.{Pattern, match_string}
use mysql_mcp_server.Util.Regex.Meaning.{Found, match_string_iff}
use mysql_mcp_server.Util.WhereClause.{
  dangerous_where_patterns, count_byte, first_reason, where_verdict, validate_where_clause,
}

first_reason-none :
    (scan : Bytes) (rs : List (Pattern × Bytes))
    → (first_reason scan rs ≡ none) ↔ All (λ r. ¬ Found r.0.branches scan) rs
unfolding first_reason
first_reason-none scan [] = (λ h. tt, λ h. refl)
first_reason-none scan ((r, reason) ∷ rs) = elim (Bool-cases (match_string r scan)) [
  | inl e ↦ (
    λ h. absurd (let k : some reason ≡ none = rw e at h in cc),
    λ h. absurd (h.0 ((match_string_iff r scan).0 e)),
  )
  | inr e ↦ (
    λ h. (
      λ f. let k = (match_string_iff r scan).1 f in cc,
      (first_reason-none scan rs).0 (rw e at h),
    ),
    λ h. rw e ((first_reason-none scan rs).1 h.1),
  )
]

where_verdict-none :
    (f : Option Bytes) (b l : Bool)
    → (where_verdict f b l ≡ none) ↔ ((f ≡ none) × (b ≡ true) × (l ≡ false))
unfolding where_verdict
where_verdict-none none b l = ground arith
where_verdict-none (some r) b l = ground arith

not_longer : (n : ℕ) → (ltb 1000 n ≡ false) ↔ (n ≤ 1000)
not_longer n = ground arith

-- A clause that is not empty is accepted exactly if no dangerous pattern occurs outside its
-- literals, as many parentheses open as close there, and it has at most 1000 bytes.
pub validate_where_clause-none_iff :
    (clause : Bytes)
    → clause ≢ []
    → (validate_where_clause clause ≡ none) ↔ (
        All (λ r. ¬ Found r.0.branches (strip_literals clause)) dangerous_where_patterns
        × (count_byte b'(' (strip_literals clause) ≡ count_byte b')' (strip_literals clause))
        × (length clause ≤ 1000))
unfolding validate_where_clause
validate_where_clause-none_iff clause n = elim (Bool-cases (equal clause [])) [
  | inl e ↦ absurd (n ((equal_iff clause []).0 e))
  | inr e ↦ (
    λ h.
        let (f, b, l) = (where_verdict-none _ _ _).0 (rw e at h) in
        (
          (first_reason-none (strip_literals clause) dangerous_where_patterns).0 f,
          (==_iff _ _).0 b,
          (not_longer _).0 l,
        ),
    λ h. rw e (
        (where_verdict-none _ _ _).1 (
          (first_reason-none (strip_literals clause) dangerous_where_patterns).1 h.0,
          (==_iff _ _).1 h.1,
          (not_longer _).1 h.2,
        )),
  )
]
