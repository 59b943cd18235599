-- ===== src/Parser/Schemas/Backticks.antt =====
-- The loop of `stripOuterBackticks` in internal/util/sql_parser.go.
use mysql_mcp_server.Prelude.{
  ◌≡◌, ◌∙◌, refl, ap, subst, inl, inr, ℕ, zero, suc, ◌-◌, ◌≤◌, Bool, true, [], ◌∷◌, ◌++◌, Bytes,
  arith, is_space, trim_left, trim_right, trim_space, take, drop, length, length-append,
  take-append_within, take-all, equal, equal_iff, has_prefix, has_suffix, Bool-cases,
}
use mysql_mcp_server.Parser.Schemas.{is_backticked, inner, strip_backticks, strip_outer_backticks}

length-trim_left : (p : ℕ → Bool) (s : Bytes) → length (trim_left p s) ≤ length s
unfolding trim_left
length-trim_left p [] = omega arith
length-trim_left p (x ∷ s) = ground (arith, length-trim_left p s)

length-trim_right : (p : ℕ → Bool) (s : Bytes) → length (trim_right p s) ≤ length s
unfolding trim_right
length-trim_right p [] = omega arith
length-trim_right p (x ∷ s) = ground (arith, length-trim_right p s)

length-trim_space : (s : Bytes) → length (trim_space s) ≤ length s
unfolding trim_space
length-trim_space s =
    omega (arith, length-trim_right is_space (trim_left is_space s), length-trim_left is_space s)

length-take : (n : ℕ) (s : Bytes) → length (take n s) ≤ n
length-take zero s = omega arith
length-take (suc n) [] = omega arith
length-take (suc n) (x ∷ s) = omega (arith, length-take n s)

length-inner : (s : Bytes) → length (inner s) ≤ length s - 2
unfolding inner
length-inner s = omega (
  arith,
  length-trim_space (take (length s - 2) (drop 1 s)),
  length-take (length s - 2) (drop 1 s),
)

-- The text is the middle between two backticks.
abbrev pub Encloses : Bytes → Bytes → Type 0
Encloses middle s = s ≡ b'`' ∷ (middle ++ (b'`' ∷ []))

has_suffix-last :
    (s : Bytes) → has_suffix s (b'`' ∷ []) ≡ true → (front : Bytes) × (s ≡ front ++ (b'`' ∷ []))
unfolding has_suffix
has_suffix-last [] h = absurd (cc)
has_suffix-last (x ∷ s) h = elim (Bool-cases (equal (x ∷ s) (b'`' ∷ []))) [
  | inl e ↦ ([], (equal_iff (x ∷ s) (b'`' ∷ [])).0 e)
  | inr e ↦ let (front, k) = has_suffix-last s (ground arith) in (x ∷ front, ap (λ t. x ∷ t) k)
]

has_suffix-append : (front : Bytes) → has_suffix (front ++ (b'`' ∷ [])) (b'`' ∷ []) ≡ true
unfolding has_suffix
has_suffix-append [] = refl
has_suffix-append (x ∷ front) = ground (arith, has_suffix-append front)

is_backticked-Encloses : (s : Bytes) → is_backticked s ≡ true → (middle : Bytes) × Encloses middle s
unfolding is_backticked has_prefix has_suffix
is_backticked-Encloses [] h = absurd (ground arith)
is_backticked-Encloses (x ∷ []) h = absurd (ground arith)
is_backticked-Encloses (x ∷ y ∷ s) h =
    let (middle, k) = has_suffix-last (y ∷ s) (ground arith) in
    let e : x ≡ b'`' = ground arith in (middle, rw e (ap (λ t. b'`' ∷ t) k))

Encloses-is_backticked : (middle s : Bytes) → Encloses middle s → is_backticked s ≡ true
unfolding is_backticked has_prefix
Encloses-is_backticked middle s e =
    rw e (ground (arith, has_suffix-append (b'`' ∷ middle), length-append middle (b'`' ∷ [])))

Encloses-inner : (middle s : Bytes) → Encloses middle s → inner s ≡ trim_space middle
unfolding inner
Encloses-inner middle s e = rw e (
    let n : suc (length (middle ++ (b'`' ∷ []))) - 2 ≡ length middle =
      omega (arith, length-append middle (b'`' ∷ [])) in
    ap trim_space (
      ap (λ k. take k (middle ++ (b'`' ∷ []))) n
      ∙ take-append_within (length middle) middle (b'`' ∷ []) (omega arith)
      ∙ take-all (length middle) middle (omega arith)))

-- From a text to what is left of it when no backticks enclose it, one pair and the white space in it
-- at a time.
pub data Peels : Bytes → Bytes → Type 0 where
  stays : {s t : Bytes} → ((middle : Bytes) → ¬ Encloses middle s) → t ≡ s → Peels s t
  peels :
      {s t : Bytes} (middle : Bytes) → Encloses middle s → Peels (trim_space middle) t → Peels s t

strip_backticks-Peels : (fuel : ℕ) (s : Bytes) → length s ≤ fuel → Peels s (strip_backticks fuel s)
unfolding strip_backticks
strip_backticks-Peels zero [] h = stays (λ middle e. cc) refl
strip_backticks-Peels zero (x ∷ s) h = absurd (omega arith)
strip_backticks-Peels (suc fuel) s h = elim (Bool-cases (is_backticked s)) [
  | inl b ↦
      let (middle, e) = is_backticked-Encloses s b in
      rw b (
        peels middle e (
          subst (λ t. Peels t (strip_backticks fuel (inner s))) (Encloses-inner middle s e)
            (strip_backticks-Peels fuel (inner s) (omega (arith, length-inner s)))))
  | inr b ↦ rw b (stays (λ middle e. let k = Encloses-is_backticked middle s e in cc) refl)
]

-- `stripOuterBackticks` takes pairs of enclosing backticks off the trimmed text, and the white space
-- in them, until none is left, and nothing else.
pub strip_outer_backticks-Peels : (s : Bytes) → Peels (trim_space s) (strip_outer_backticks s)
unfolding strip_outer_backticks
strip_outer_backticks-Peels s =
    strip_backticks-Peels (length (trim_space s)) (trim_space s) (omega arith)
