-- ===== src/Prelude/Trim.antt =====
-- Trimming a text whose ends are known.
use Prim.Native.Nat.{ℕ}
use mathlib.Core.Path.{◌≡◌, refl, ◌∙◌}
use mathlib.Core.Bool.{Bool, false}
use mathlib.Core.List.{[], ◌∷◌, ◌++◌}
use native.Mathlib.Omega.{arith}
use mysql_mcp_server.Prelude.Text.{Bytes, is_space, trim_right, trim_space}

module _ (p : ℕ → Bool) where
  trim_right-cons_ne :
      (x y : ℕ) (s t : Bytes) → trim_right p s ≡ y ∷ t → trim_right p (x ∷ s) ≡ x ∷ y ∷ t
  unfolding trim_right
  trim_right-cons_ne x y s t h = ground arith

  trim_right-cons_stop :
      (c : ℕ) (s : Bytes) → p c ≡ false → trim_right p (c ∷ s) ≡ c ∷ trim_right p s
  unfolding trim_right
  trim_right-cons_stop c s h = ground arith

  -- Trimming on the right leaves what stands in front of a byte that stays.
  pub trim_right-append :
      (s : Bytes) (c : ℕ) (t : Bytes)
      → p c ≡ false
      → trim_right p (s ++ (c ∷ t)) ≡ s ++ (c ∷ trim_right p t)
  trim_right-append [] c t h = trim_right-cons_stop c t h
  trim_right-append (x ∷ []) c t h = trim_right-cons_ne x c (c ∷ t) _ (trim_right-cons_stop c t h)
  trim_right-append (x ∷ y ∷ s) c t h =
      trim_right-cons_ne x y (y ∷ (s ++ (c ∷ t))) _ (trim_right-append (y ∷ s) c t h)

pub trim_space-append :
    (x : ℕ) (s : Bytes) (c : ℕ) (t : Bytes)
    → is_space x ≡ false
    → is_space c ≡ false
    → trim_space (x ∷ (s ++ (c ∷ t))) ≡ x ∷ (s ++ (c ∷ trim_right is_space t))
unfolding trim_space
trim_space-append x s c t h k = (rw h refl) ∙ trim_right-append is_space (x ∷ s) c t k
