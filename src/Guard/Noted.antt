-- ===== src/Guard/Noted.antt =====
-- When cmd/mysql-mcp-server/guard.go explains a refusal, and what it keeps of the result.
use mysql_mcp_server.Prelude.{
  ◌≡◌, refl, ap, sym, subst, All, append_assoc, ◌⊎◌, inl, inr, Bool, true, false, ◌&&◌, ◌||◌, List,
  [], ◌∷◌, ◌++◌, any, Option, none, some, Bytes, codes, equal, contains, arith, ◌==◌, Bool-cases,
  Option-cases,
}
use mysql_mcp_server.Prelude.Assoc.{has, has-insert}
use mysql_mcp_server.Access.{Names}
use mysql_mcp_server.Guard.{
  DriverError, no_error, other_error, server_error, find_refusal, note, saw, hint, Content,
  text_content, other_content, explained, keep, refused_by, explain_guard_refusal,
}

-- The errors of a call, noted in turn.
abbrev pub note_all : List DriverError → Names → Names
note_all [] settings = settings
note_all (e ∷ es) settings = note_all es (note e settings)

-- Whether the server refused a statement with error 1290 for a setting.
abbrev pub is_refusal : Bytes → DriverError → Bool
is_refusal setting no_error = false
is_refusal setting other_error = false
is_refusal setting (server_error number message) =
    number == 1290 && elim (find_refusal message) [ none ↦ false | some s ↦ equal s setting ]

has-note :
    (k : Bytes) (e : DriverError) (settings : Names)
    → has k (note e settings) ≡ (is_refusal k e || has k settings)
unfolding note
has-note k no_error settings = refl
has-note k other_error settings = refl
has-note k (server_error number message) settings = elim (Option-cases (find_refusal message)) [
  | inl f ↦ rw f (ground arith)
  | inr (s, f) ↦ rw f (ground (arith, has-insert s k tt settings))
]

has-note_all :
    (k : Bytes) (es : List DriverError) (settings : Names)
    → has k (note_all es settings) ≡ (any (is_refusal k) es || has k settings)
has-note_all k [] settings = refl
has-note_all k (e ∷ es) settings =
    ground (arith, has-note_all k es (note e settings), has-note k e settings)

-- The text tells of error 1290 for a setting, and the setting is noted.
abbrev pub Named : (Bytes → Bool) → Bytes → Bytes → Type 0
Named noted text setting =
    (contains text (codes "1290") ≡ true)
    × (find_refusal text ≡ some setting)
    × (noted setting ≡ true)

-- Nothing in the content is to be explained.
abbrev pub IsUnnamed : (Bytes → Bool) → Content → Type 0
IsUnnamed noted (text_content text) = ¬ ((setting : Bytes) × Named noted text setting)
IsUnnamed noted other_content = Unit

refused_by-Named :
    (settings : Names) (text k : Bytes)
    → refused_by settings text ≡ some k
    → Named (λ s. has s settings) text k
unfolding refused_by saw
refused_by-Named settings text k h = elim (Bool-cases (contains text (codes "1290"))) [
  | inr c ↦ absurd (let l = rw c at h in cc)
  | inl c ↦ elim (Option-cases (find_refusal text)) [
    | inl f ↦ absurd (let l = rw (c, f) at h in cc)
    | inr (s, f) ↦ ground arith
  ]
]

refused_by-IsUnnamed :
    (settings : Names) (text : Bytes)
    → refused_by settings text ≡ none
    → IsUnnamed (λ s. has s settings) (text_content text)
unfolding refused_by saw
refused_by-IsUnnamed settings text h =
    λ (s, p). let (c, f, n) = p in absurd (let l = rw (c, f, n) at h in cc)

-- What an explanation says in front of the server's text.
abbrev pub Explains : Bytes → Bytes → Bytes → Type 0
Explains setting text explanation =
    (reason : Bytes) × (explanation
      ≡ codes "Refused by the server's MCP guard (component_mcp_guard, "
        ++ (setting ++ (reason ++ text)))

-- Nothing is to be explained and the result is left as it is, or the first text that is to be is
-- replaced by its explanation and the setting is given.
abbrev pub IsExplained : (Bytes → Bool) → List Content → List Content × Option Bytes → Type 0
IsExplained noted contents result =
    ((result ≡ (contents, none)) × All (IsUnnamed noted) contents)
    ⊎ ((front back : List Content) × (setting text explanation : Bytes) × (contents
          ≡ front ++ (text_content text ∷ back))
        × (result ≡ (front ++ (text_content explanation ∷ back), some setting))
        × All (IsUnnamed noted) front
        × Named noted text setting
        × Explains setting text explanation)

keep-IsExplained :
    (noted : Bytes → Bool) (c : Content) (contents : List Content)
    (result : List Content × Option Bytes)
    → IsUnnamed noted c
    → IsExplained noted contents result
    → IsExplained noted (c ∷ contents) (keep c result)
keep-IsExplained noted c contents result u (inl (e, a)) = inl (ap (keep c) e, (u, a))
keep-IsExplained noted c contents result u (inr (front, back, setting, text, x, e, r, a, n, s)) =
    inr (c ∷ front, back, setting, text, x, ap (λ l. c ∷ l) e, ap (keep c) r, (u, a), n, s)

explained-Explains : (setting text : Bytes) → Explains setting text (explained setting text)
unfolding explained
explained-Explains setting text = (
  codes "): "
      ++ (hint setting
          ++ codes ". Ask the database administrator if this is needed. Server error: "),
  ap (λ t. codes "Refused by the server's MCP guard (component_mcp_guard, " ++ (setting ++ t))
      (ap (λ t. codes "): " ++ t)
        (sym (
          append_assoc (hint setting)
            (codes ". Ask the database administrator if this is needed. Server error: ") text))),
)

abbrev rewritten :
    Bytes → List Content → List Content × Option Bytes → Option Bytes → List Content × Option Bytes
rewritten text rest later none = keep (text_content text) later
rewritten text rest later (some setting) =
    (text_content (explained setting text) ∷ rest, some setting)

rewritten-IsExplained :
    (settings : Names) (text : Bytes) (rest : List Content) (later : List Content × Option Bytes)
    (o : Option Bytes)
    → refused_by settings text ≡ o
    → IsExplained (λ s. has s settings) rest later
    → IsExplained (λ s. has s settings) (text_content text ∷ rest) (rewritten text rest later o)
rewritten-IsExplained settings text rest later none e h =
    keep-IsExplained (λ s. has s settings) (text_content text) rest later
      (refused_by-IsUnnamed settings text e) h
rewritten-IsExplained settings text rest later (some setting) e h = inr (
  [],
  rest,
  setting,
  text,
  explained setting text,
  refl,
  refl,
  tt,
  refused_by-Named settings text setting e,
  explained-Explains setting text,
)

explain-IsExplained :
    (settings : Names) (contents : List Content)
    → IsExplained (λ s. has s settings) contents (explain_guard_refusal settings contents)
unfolding explain_guard_refusal
explain-IsExplained settings [] = inl (refl, tt)
explain-IsExplained settings (other_content ∷ rest) =
    keep-IsExplained (λ s. has s settings) other_content rest (explain_guard_refusal settings rest)
      tt (explain-IsExplained settings rest)
explain-IsExplained settings (text_content text ∷ rest) =
    rewritten-IsExplained settings text rest (explain_guard_refusal settings rest)
      (refused_by settings text) refl (explain-IsExplained settings rest)

noted_lem :
    (errors : List DriverError)
    → ◌≡◌ {A = Bytes → Bool} (λ s. has s (note_all errors [])) (λ s. any (is_refusal s) errors)
unfolding has
noted_lem errors = λ i s. step s i
  where
    step : (s : Bytes) → has s (note_all errors []) ≡ any (is_refusal s) errors
    step s = ground (arith, has-note_all s errors [])

-- The explanation after a call is that of the first text that names error 1290 and a setting for
-- which the server has refused a statement of the call with error 1290: the text is replaced by one
-- that names the setting and ends in the text, and the setting is given; the other contents stay. If
-- there is no such text, the result is left as it is.
pub explain_guard_refusal-noted :
    (errors : List DriverError) (contents : List Content)
    → IsExplained
        (λ setting. any (is_refusal setting) errors)
        contents
        (explain_guard_refusal (note_all errors []) contents)
explain_guard_refusal-noted errors contents =
    subst
      (λ noted. IsExplained noted contents (explain_guard_refusal (note_all errors []) contents))
      (noted_lem errors) (explain-IsExplained (note_all errors []) contents)
