-- ===== src/Util/Regex/Meaning.antt =====
-- What a branch means, as a relation, and that the matcher decides it.
use mysql_mcp_server.Prelude.{
  ℕ, ◌≡◌, ◌↔◌, refl, ◌⊎◌, inl, inr, true, List, [], ◌∷◌, Option, none, some, arith, Bytes,
  byte_upper, any, Bool-cases,
}
use mysql_mcp_server.Util.Regex.{
  lit, boundary, space, spaces, start, hex, Branch, is_blank, is_hex, word_at, head?, differ,
  match_here, search_from, Pattern, match_string,
}

-- `Matches p prev s t`: behind the byte `prev`, the branch `p` takes a first part of `s` and
-- leaves `t`.
pub data Matches : Branch → Option ℕ → Bytes → Bytes → Type 0 where
  done : {prev : Option ℕ} {s : Bytes} → Matches [] prev s s
  take_lit :
      {c x : ℕ} {p : Branch} {prev : Option ℕ} {s t : Bytes}
      → byte_upper x ≡ c
      → Matches p (some x) s t
      → Matches (lit c ∷ p) prev (x ∷ s) t
  take_hex :
      {x : ℕ} {p : Branch} {prev : Option ℕ} {s t : Bytes}
      → is_hex x ≡ true
      → Matches p (some x) s t
      → Matches (hex ∷ p) prev (x ∷ s) t
  take_space :
      {x : ℕ} {p : Branch} {prev : Option ℕ} {s t : Bytes}
      → is_blank x ≡ true
      → Matches p (some x) s t
      → Matches (space ∷ p) prev (x ∷ s) t
  at_boundary :
      {p : Branch} {prev : Option ℕ} {s t : Bytes}
      → differ (word_at prev) (word_at (head? s)) ≡ true
      → Matches p prev s t
      → Matches (boundary ∷ p) prev s t
  from_start : {p : Branch} {s t : Bytes} → Matches p none s t → Matches (start ∷ p) none s t
  no_more :
      {p : Branch} {prev : Option ℕ} {s t : Bytes}
      → Matches p prev s t
      → Matches (spaces ∷ p) prev s t
  one_more :
      {x : ℕ} {p : Branch} {prev : Option ℕ} {s t : Bytes}
      → is_blank x ≡ true
      → Matches (spaces ∷ p) (some x) s t
      → Matches (spaces ∷ p) prev (x ∷ s) t

abbrev pub MatchesSome : Branch → Option ℕ → Bytes → Type 0
MatchesSome p prev s = (t : Bytes) × Matches p prev s t

match_here_sound :
    (p : Branch) (prev : Option ℕ) (s : Bytes) → match_here p prev s ≡ true → MatchesSome p prev s
unfolding match_here
match_here_sound [] prev s h = (s, done)
match_here_sound (lit c ∷ p) prev [] h = cc
match_here_sound (lit c ∷ p) prev (x ∷ s) h =
    let (t, m) = match_here_sound p (some x) s (ground arith) in (t, take_lit (ground arith) m)
match_here_sound (hex ∷ p) prev [] h = cc
match_here_sound (hex ∷ p) prev (x ∷ s) h =
    let (t, m) = match_here_sound p (some x) s (ground arith) in (t, take_hex (ground arith) m)
match_here_sound (space ∷ p) prev [] h = cc
match_here_sound (space ∷ p) prev (x ∷ s) h =
    let (t, m) = match_here_sound p (some x) s (ground arith) in (t, take_space (ground arith) m)
match_here_sound (boundary ∷ p) prev s h =
    let (t, m) = match_here_sound p prev s (ground arith) in (t, at_boundary (ground arith) m)
match_here_sound (start ∷ p) none s h =
    let (t, m) = match_here_sound p none s h in (t, from_start m)
match_here_sound (start ∷ p) (some x) s h = cc
match_here_sound (spaces ∷ p) prev [] h =
    let (t, m) = match_here_sound p prev [] h in (t, no_more m)
match_here_sound (spaces ∷ p) prev (x ∷ s) h = elim (Bool-cases (match_here p prev (x ∷ s))) [
  | inl e ↦ let (t, m) = match_here_sound p prev (x ∷ s) e in (t, no_more m)
  | inr e ↦
      let (t, m) = match_here_sound (spaces ∷ p) (some x) s (ground arith) in
      (t, one_more (ground arith) m)
]

match_here_complete :
    {p : Branch} {prev : Option ℕ} {s t : Bytes} → Matches p prev s t → match_here p prev s ≡ true
unfolding match_here
match_here_complete done = refl
match_here_complete (take_lit {c} {x} e m) = ground (arith, match_here_complete m)
match_here_complete (take_hex e m) = ground (arith, match_here_complete m)
match_here_complete (take_space e m) = ground (arith, match_here_complete m)
match_here_complete (at_boundary e m) = ground (arith, match_here_complete m)
match_here_complete (from_start m) = match_here_complete m
match_here_complete (no_more {s = []} m) = match_here_complete m
match_here_complete (no_more {s = x ∷ s} m) = ground (arith, match_here_complete m)
match_here_complete (one_more e m) = ground (arith, match_here_complete m)

-- The matcher finds a match exactly where the branch has one.
pub match_here_iff :
    (p : Branch) (prev : Option ℕ) (s : Bytes) → (match_here p prev s ≡ true) ↔ MatchesSome p prev s
match_here_iff p prev s = (match_here_sound p prev s, λ m. match_here_complete m.1)

-- The branch matches somewhere in the text.
pub data Occurs (p : Branch) : Option ℕ → Bytes → Type 0 where
  here : {prev : Option ℕ} {s : Bytes} → MatchesSome p prev s → Occurs p prev s
  later : {x : ℕ} {prev : Option ℕ} {s : Bytes} → Occurs p (some x) s → Occurs p prev (x ∷ s)

search_from_sound :
    (p : Branch) (prev : Option ℕ) (s : Bytes) → search_from p prev s ≡ true → Occurs p prev s
unfolding search_from
search_from_sound p prev [] h = here (match_here_sound p prev [] h)
search_from_sound p prev (x ∷ s) h = elim (Bool-cases (match_here p prev (x ∷ s))) [
  | inl e ↦ here (match_here_sound p prev (x ∷ s) e)
  | inr e ↦ later (search_from_sound p (some x) s (ground arith))
]

search_from_complete :
    {p : Branch} {prev : Option ℕ} {s : Bytes} → Occurs p prev s → search_from p prev s ≡ true
unfolding search_from
search_from_complete (here {s = []} m) = match_here_complete m.1
search_from_complete (here {s = x ∷ s} m) = ground (arith, match_here_complete m.1)
search_from_complete (later o) = ground (arith, search_from_complete o)

-- Some branch of the pattern occurs in the text.
abbrev pub Found : List Branch → Bytes → Type 0
Found [] s = ⊥
Found (p ∷ ps) s = Occurs p none s ⊎ Found ps s

any_sound : (ps : List Branch) (s : Bytes) → any (λ p. search_from p none s) ps ≡ true → Found ps s
any_sound [] s h = cc
any_sound (p ∷ ps) s h = elim (Bool-cases (search_from p none s)) [
  | inl e ↦ inl (search_from_sound p none s e)
  | inr e ↦ inr (any_sound ps s (ground arith))
]

any_complete :
    (ps : List Branch) (s : Bytes) → Found ps s → any (λ p. search_from p none s) ps ≡ true
any_complete [] s h = absurd h
any_complete (p ∷ ps) s (inl o) = ground (arith, search_from_complete o)
any_complete (p ∷ ps) s (inr o) = ground (arith, any_complete ps s o)

-- The matcher answers yes exactly on the texts in which a branch of the pattern occurs, by the
-- rules of `Matches`.
pub match_string_iff : (r : Pattern) (s : Bytes) → (match_string r s ≡ true) ↔ Found r.branches s
unfolding match_string
match_string_iff r s = (any_sound r.branches s, any_complete r.branches s)
