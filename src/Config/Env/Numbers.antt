-- ===== src/Config/Env/Numbers.antt =====
-- The numbers that `getEnvInt` gives, and the durations made of them.
use mysql_mcp_server.Prelude.{
  ℕ, ◌<◌, ◌≡◌, ◌⊎◌, inl, inr, refl, [], some, arith, Bytes, equal, trim_space, Bool-cases,
  Option-cases,
}
use mysql_mcp_server.Config.Types.{Host}
use mysql_mcp_server.Config.Env.{half, atoi, positive, get_env_int}

-- `getEnvInt` gives the default, or the number that the variable holds, which is above zero and
-- below 2 ^ 63.
pub get_env_int_cases :
    (h : Host) (key : Bytes) (def : ℕ)
    → (get_env_int h key def ≡ def)
      ⊎ ((atoi (trim_space (h.getenv key)) ≡ some (get_env_int h key def))
          × (0 < get_env_int h key def)
          × (get_env_int h key def < half))
unfolding get_env_int
get_env_int_cases h key def = elim (Option-cases (atoi (trim_space (h.getenv key)))) [
  | inl e ↦ inl (ground arith)
  | inr (n, e) ↦ elim (Bool-cases (equal (trim_space (h.getenv key)) [])) [
    | inl f ↦ inl (rw f refl)
    | inr f ↦ elim (Bool-cases (positive n)) [
      | inl g ↦ inr (rw f (rw e (rw g (refl, (ground arith), (ground arith)))))
      | inr g ↦ inl (rw f (rw e (rw g refl)))
    ]
  ]
]
