-- ===== src/Util/Validator/Verdict.antt =====
-- What an accepting verdict of `ValidateSQL` guarantees.
use mysql_mcp_server.Prelude.{
  ◌≡◌, ◌≢◌, ◌↔◌, inl, inr, refl, Bool, true, false, not, List, [], ◌∷◌, Option, none, some, Bytes,
  equal, equal_iff, to_upper, has_prefix, contains_byte, trim_right, trim_space, any, if◌then◌else◌,
  All, arith, Bool-cases,
}
use mysql_mcp_server.Util.Literals.{strip_literals}
use mysql_mcp_server.Util.Regex.{Pattern, match_string}
use mysql_mcp_server.Util.Regex.Meaning.{Found, match_string_iff}
use mysql_mcp_server.Util.Validator.Patterns.{blocked_patterns, system_read_schema_patterns}
use mysql_mcp_server.Util.Validator.{
  empty_query, allowed_prefixes, is_trailing, target, first_match, verdict, check_statement,
  validate_sql,
}

abbrev Unmatched : (Pattern → Bytes) → List Pattern → Type 0
Unmatched on rs = All (λ r. ¬ Found r.branches (on r)) rs

first_match-none :
    (on : Pattern → Bytes) (rs : List Pattern) → first_match on rs ≡ none → Unmatched on rs
unfolding first_match
first_match-none on [] h = tt
first_match-none on (r ∷ rs) h = elim (Bool-cases (match_string r (on r))) [
  | inl e ↦ absurd (let k : some r.source ≡ none = rw e at h in cc)
  | inr e ↦ (λ f. let k = (match_string_iff r (on r)).1 f in cc, first_match-none on rs (rw e at h))
]

first_match-Unmatched :
    (on : Pattern → Bytes) (rs : List Pattern) → Unmatched on rs → first_match on rs ≡ none
unfolding first_match
first_match-Unmatched on [] h = refl
first_match-Unmatched on (r ∷ rs) (p, h) = elim (Bool-cases (match_string r (on r))) [
  | inl e ↦ absurd (p ((match_string_iff r (on r)).0 e))
  | inr e ↦ rw e (first_match-Unmatched on rs h)
]

-- What `ValidateSQL` asks of the trimmed text `s` and its scan.
pub record IsSafe (allow : Bool) (s scan : Bytes) : Type 0 where
  pub one_statement : contains_byte (trim_right is_trailing scan) b';' ≡ false
  pub no_blocked : All (λ r. ¬ Found r.branches (target r s scan)) blocked_patterns
  pub no_system : allow ≡ false → All (λ r. ¬ Found r.branches scan) system_read_schema_patterns
  pub reads : any (λ prefix. has_prefix (to_upper s) prefix) allowed_prefixes ≡ true

verdict_parts :
    (m : Bool) (f g : Option Bytes) (r : Bool)
    → verdict m f g r ≡ none
    → (m ≡ false) × (f ≡ none) × (g ≡ none) × (r ≡ true)
unfolding verdict
verdict_parts m f g r h = ground arith

verdict-none : verdict false none none true ≡ none
unfolding verdict
verdict-none = refl

system_none :
    (allow : Bool) (scan : Bytes)
    → (first_match (λ r. scan) (if not allow then system_read_schema_patterns else []) ≡ none)
      ↔ (allow ≡ false → Unmatched (λ r. scan) system_read_schema_patterns)
system_none true scan = (λ _ e. absurd (cc), λ _. first_match-Unmatched (λ r. scan) [] tt)
system_none false scan = (
  λ h _. first_match-none (λ r. scan) system_read_schema_patterns h,
  λ h. first_match-Unmatched (λ r. scan) system_read_schema_patterns (h refl),
)

module _ (allow : Bool) (s scan : Bytes) where
  check_statement-IsSafe : check_statement allow s scan ≡ none → IsSafe allow s scan
  unfolding check_statement
  check_statement-IsSafe h =
      let (m, f, g, r) = verdict_parts _ _ _ _ h in
      record {
        one_statement = m;
        no_blocked = first_match-none (λ r. target r s scan) blocked_patterns f;
        no_system = (system_none allow scan).0 g;
        reads = r;
      }

  IsSafe-check_statement : IsSafe allow s scan → check_statement allow s scan ≡ none
  unfolding check_statement
  IsSafe-check_statement v = rw v.one_statement (
      rw (first_match-Unmatched (λ r. target r s scan) blocked_patterns v.no_blocked)
        (rw ((system_none allow scan).1 v.no_system) (rw v.reads verdict-none)))

-- `ValidateSQL` accepts a text exactly if, trimmed, it is not empty, has no semicolon outside
-- literals but at the end, starts with one of the five reading keywords, and no blocked pattern
-- occurs in it: of the anchored patterns in the text, of the others outside literals, and of the
-- three system schemas outside literals unless they are allowed.
pub validate_sql-none_iff :
    (allow : Bool) (text : Bytes)
    → (validate_sql allow text ≡ none)
      ↔ ((trim_space text ≢ []) × IsSafe allow (trim_space text) (strip_literals (trim_space text)))
unfolding validate_sql
validate_sql-none_iff allow text = elim (Bool-cases (equal (trim_space text) [])) [
  | inl e ↦ (
    λ h. absurd (let k : some empty_query ≡ none = rw e at h in cc),
    λ h. absurd (h.0 ((equal_iff _ _).0 e)),
  )
  | inr e ↦ (
    λ h. (
      λ k. let l = (equal_iff (trim_space text) []).1 k in cc,
      check_statement-IsSafe allow _ _ (rw e at h),
    ),
    λ h. rw e (IsSafe-check_statement allow _ _ h.1),
  )
]
