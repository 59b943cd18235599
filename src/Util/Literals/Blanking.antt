-- ===== src/Util/Literals/Blanking.antt =====
-- What `stripSQLLiterals` may change: it only puts blanks, in place.
use mysql_mcp_server.Prelude.{ℕ, ◌≡◌, ◌≢◌, refl, ◌⊎◌, inl, inr, [], ◌∷◌, ◌++◌, arith, Bytes, All}
use mysql_mcp_server.Util.Literals.{
  Mode, outside, inside, doubled, closes, escaped, content, round, strip_from, strip_literals,
  opened,
}

-- Each byte of the scan is that of the text or a blank, at the same place.
abbrev pub Blanked : Bytes → Bytes → Type 0
Blanked [] [] = Unit
Blanked (c ∷ s) (d ∷ t) = ((d ≡ c) ⊎ (d ≡ b' ')) × Blanked s t
Blanked _ _ = ⊥

strip_from-Blanked : (m : Mode) (s : Bytes) → Blanked s (strip_from m s)
unfolding strip_from
strip_from-Blanked m [] = tt
strip_from-Blanked outside (c ∷ s) = (inl refl, strip_from-Blanked (opened c) s)
strip_from-Blanked (inside q) (c ∷ []) = ground arith
strip_from-Blanked (inside q) (c ∷ d ∷ s) =
    (elim (round q c d)
      as (λ r. Blanked (c ∷ d ∷ s) (elim r [
        | doubled ↦ c ∷ b' ' ∷ strip_from (inside q) s
        | closes ↦ c ∷ strip_from outside (d ∷ s)
        | escaped ↦ b' ' ∷ b' ' ∷ strip_from (inside q) s
        | content ↦ b' ' ∷ strip_from (inside q) (d ∷ s)
      ])) [
        | doubled ↦ (inl refl, (inr refl, strip_from-Blanked (inside q) s))
        | closes ↦ (inl refl, strip_from-Blanked outside (d ∷ s))
        | escaped ↦ (inr refl, (inr refl, strip_from-Blanked (inside q) s))
        | content ↦ (inr refl, strip_from-Blanked (inside q) (d ∷ s))
      ])

-- The scan has the length of the text, and differs from it only by blanks.
pub strip_literals-Blanked : (s : Bytes) → Blanked s (strip_literals s)
unfolding strip_literals
strip_literals-Blanked s = strip_from-Blanked outside s

-- A byte that opens no literal.
abbrev pub IsPlain : ℕ → Type 0
IsPlain c = (c ≢ 39) × (c ≢ b'"') × (c ≢ b'`')

-- Text in front of the first quote is kept.
pub strip_from-append :
    (s t : Bytes) → All IsPlain s → strip_from outside (s ++ t) ≡ s ++ strip_from outside t
unfolding strip_from
strip_from-append [] t h = refl
strip_from-append (c ∷ s) t (p, h) = ground (arith, strip_from-append s t h)
