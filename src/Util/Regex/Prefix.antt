-- ===== src/Util/Regex/Prefix.antt =====
-- A byte that no atom takes stops a match: what stands behind it does not matter.
use mysql_mcp_server.Prelude.{
  ℕ, ◌≡◌, refl, Bool, true, false, not, List, [], ◌∷◌, ◌++◌, Option, none, some, arith, Bytes,
  byte_upper, ◌==◌, any, all, has_prefix, to_upper, and-eq-true,
}
use mysql_mcp_server.Util.Regex.{
  Atom, lit, boundary, space, spaces, start, hex, Branch, Pattern, is_blank, is_hex, word_at, head?,
  differ, at_start, match_here, search_from, match_string,
}

-- A byte that only a literal atom could take, and then only itself.
pub record IsStop (c : ℕ) : Type 0 where
  pub upper : byte_upper c ≡ c
  pub no_blank : is_blank c ≡ false
  pub no_hex : is_hex c ≡ false

abbrev pub takes : ℕ → Atom → Bool
takes c (lit d) = c == d
takes c _ = false

-- No atom of the branch takes the byte.
abbrev pub avoids : ℕ → Branch → Bool
avoids c p = all (λ a. not (takes c a)) p

module _ (c : ℕ) (stop : IsStop c) (t t' : Bytes) where
  head?-stop : (s : Bytes) → head? (s ++ (c ∷ t)) ≡ head? (s ++ (c ∷ t'))
  head?-stop [] = refl
  head?-stop (x ∷ s) = refl

  match_here-stop :
      (p : Branch) (prev : Option ℕ) (s : Bytes)
      → avoids c p ≡ true
      → match_here p prev (s ++ (c ∷ t)) ≡ match_here p prev (s ++ (c ∷ t'))
  unfolding match_here
  match_here-stop [] prev s h = refl
  match_here-stop (lit d ∷ p) prev [] h = ground (arith, stop.upper)
  match_here-stop (lit d ∷ p) prev (x ∷ s) h = ground (arith, match_here-stop p (some x) s)
  match_here-stop (hex ∷ p) prev [] h = ground (arith, stop.no_hex)
  match_here-stop (hex ∷ p) prev (x ∷ s) h = ground (arith, match_here-stop p (some x) s)
  match_here-stop (space ∷ p) prev [] h = ground (arith, stop.no_blank)
  match_here-stop (space ∷ p) prev (x ∷ s) h = ground (arith, match_here-stop p (some x) s)
  match_here-stop (boundary ∷ p) prev s h = λ i.
      elim (differ (word_at prev) (word_at (head?-stop s i))) [
        | true ↦ match_here-stop p prev s h i
        | false ↦ false
      ]
  match_here-stop (start ∷ p) prev s h =
      λ i. elim (at_start prev) [ true ↦ match_here-stop p prev s h i | false ↦ false ]
  match_here-stop (spaces ∷ p) prev [] h =
      ground (arith, stop.no_blank, match_here-stop p prev [] h)
  match_here-stop (spaces ∷ p) prev (x ∷ s) h = λ i. elim (match_here-stop p prev (x ∷ s) h i) [
    | true ↦ true
    | false ↦ elim (is_blank x) [
      | true ↦ match_here-stop (spaces ∷ p) (some x) s h i
      | false ↦ false
    ]
  ]

  pub has_prefix-stop :
      (s w : Bytes)
      → all (λ d. not (c == d)) w ≡ true
      → has_prefix (to_upper (s ++ (c ∷ t))) w ≡ has_prefix (to_upper (s ++ (c ∷ t'))) w
  unfolding has_prefix to_upper
  has_prefix-stop s [] h = ground arith
  has_prefix-stop [] (d ∷ w) h = ground (arith, stop.upper)
  has_prefix-stop (x ∷ s) (d ∷ w) h = ground (arith, has_prefix-stop s w)

search_from-start : (p : Branch) (x : ℕ) (s : Bytes) → search_from (start ∷ p) (some x) s ≡ false
unfolding search_from match_here
search_from-start p x [] = refl
search_from-start p x (y ∷ s) = search_from-start p y s

-- The branch is anchored at the start, and no atom takes the byte.
abbrev pub is_fixed : ℕ → Branch → Bool
is_fixed c (start ∷ p) = avoids c p
is_fixed c _ = false

module _ (c : ℕ) (stop : IsStop c) (t t' : Bytes) where
  search_from-stop :
      (p : Branch) (s : Bytes)
      → is_fixed c p ≡ true
      → search_from p none (s ++ (c ∷ t)) ≡ search_from p none (s ++ (c ∷ t'))
  unfolding search_from match_here
  search_from-stop (start ∷ p) [] h = ground (
    arith,
    match_here-stop c stop t t' p none [] h,
    search_from-start p c t,
    search_from-start p c t',
  )
  search_from-stop (start ∷ p) (x ∷ s) h = ground (
    arith,
    match_here-stop c stop t t' p none (x ∷ s) h,
    search_from-start p x (s ++ (c ∷ t)),
    search_from-start p x (s ++ (c ∷ t')),
  )
  search_from-stop (lit d ∷ p) s h = cc
  search_from-stop _ s h = cc

  any-stop :
      (ps : List Branch) (s : Bytes)
      → all (is_fixed c) ps ≡ true
      → any (λ p. search_from p none (s ++ (c ∷ t))) ps
        ≡ any (λ p. search_from p none (s ++ (c ∷ t'))) ps
  any-stop [] s h = refl
  any-stop (p ∷ ps) s h =
      let (h₁, h₂) = and-eq-true (is_fixed c p) (all (is_fixed c) ps) h in
      rw (search_from-stop p s h₁) (rw (any-stop ps s h₂))

  -- An anchored pattern does not see what stands behind a byte that none of its atoms takes.
  pub match_string-stop :
      (r : Pattern) (s : Bytes)
      → all (is_fixed c) r.branches ≡ true
      → match_string r (s ++ (c ∷ t)) ≡ match_string r (s ++ (c ∷ t'))
  unfolding match_string
  match_string-stop r s h = any-stop r.branches s h
