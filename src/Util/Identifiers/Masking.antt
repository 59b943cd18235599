-- ===== src/Util/Identifiers/Masking.antt =====
-- `MaskDSN` and `TruncateQuery`.
use mysql_mcp_server.Prelude.{
  ℕ, zero, suc, ◌⊎◌, inl, inr, ◌<◌, Bool-cases, leb→le, ◌+◌, ◌≤◌, ◌≡◌, ◌≢◌, refl, false, [], ◌∷◌,
  ◌++◌, some, arith, Bytes, codes, index, has_prefix, length, length-append, append_assoc, ap, take,
  drop, ltb, leb, All,
}
use mysql_mcp_server.Util.Identifiers.{mask_at, mask_dsn, truncate_query}

-- The first occurrence of a byte behind a text without it.
index-append :
    (c : ℕ) (s t : Bytes) → All (λ x. x ≢ c) s → index (s ++ (c ∷ t)) (c ∷ []) ≡ some (length s)
unfolding index has_prefix
index-append c [] t h = ground arith
index-append c (x ∷ s) t (p, h) = ground (arith, index-append c s t h)

take-append : (s t : Bytes) → take (length s) (s ++ t) ≡ s
take-append [] t = refl
take-append (x ∷ s) t = cc (take-append s t)

drop-append : (s t : Bytes) → drop (length s) (s ++ t) ≡ t
drop-append [] t = refl
drop-append (x ∷ s) t = drop-append s t

All-ne-append :
    (c d : ℕ) (s t : Bytes)
    → All (λ x. x ≢ c) s
    → d ≢ c
    → All (λ x. x ≢ c) t
    → All (λ x. x ≢ c) (s ++ (d ∷ t))
All-ne-append c d [] t h p k = (p, k)
All-ne-append c d (x ∷ s) t (q, h) p k = (q, All-ne-append c d s t h p k)

not_after : (m n : ℕ) → ltb (m + 1 + n) m ≡ false
not_after m n = ground arith

module _ (user password rest : Bytes) where
  dsn : Bytes
  dsn = user ++ (b':' ∷ (password ++ (b'@' ∷ rest)))

  index-at :
      All (λ x. x ≢ b'@') user
      → All (λ x. x ≢ b'@') password
      → index dsn (b'@' ∷ []) ≡ some (length user + 1 + length password)
  unfolding dsn
  index-at h k = rw (← append_assoc user (b':' ∷ password) (b'@' ∷ rest)) (
      rw
        (index-append b'@' (user ++ (b':' ∷ password)) rest
          (All-ne-append b'@' b':' user password h (λ e. absurd (omega arith)) k))
        (ap some (omega (arith, length-append user (b':' ∷ password)))))

  drop-at : drop (length user + 1 + length password) dsn ≡ b'@' ∷ rest
  unfolding dsn
  drop-at = rw (← append_assoc user (b':' ∷ password) (b'@' ∷ rest)) (
      let e : length user + 1 + length password ≡ length (user ++ (b':' ∷ password)) =
        omega (arith, length-append user (b':' ∷ password)) in
      rw e (drop-append (user ++ (b':' ∷ password)) (b'@' ∷ rest)))

  take-colon : take (length user + 1) dsn ≡ user ++ (b':' ∷ [])
  unfolding dsn
  take-colon = rw (← append_assoc user (b':' ∷ []) (password ++ (b'@' ∷ rest))) (
      let e : length user + 1 ≡ length (user ++ (b':' ∷ [])) =
        omega (arith, length-append user (b':' ∷ [])) in
      rw e (take-append (user ++ (b':' ∷ [])) (password ++ (b'@' ∷ rest))))

  -- Of `user:password@rest`, where neither the user nor the password holds an `@` and the user no
  -- colon, `MaskDSN` shows `user:****@rest`: nothing of the password, and all of the rest.
  pub mask_dsn_lem :
      All (λ x. x ≢ b':') user
      → All (λ x. x ≢ b'@') user
      → All (λ x. x ≢ b'@') password
      → mask_dsn (user ++ (b':' ∷ (password ++ (b'@' ∷ rest))))
        ≡ user ++ (b':' ∷ (codes "****" ++ (b'@' ∷ rest)))
  unfolding mask_dsn mask_at dsn
  mask_dsn_lem h k l =
      rw (index-at k l, mask_dsn)
        (rw (index-append b':' user (password ++ (b'@' ∷ rest)) h, mask_at)
          (rw (not_after (length user) (length password))
            (rw take-colon (rw drop-at (rw append_assoc)))))

length-take : (n : ℕ) (s : Bytes) → n ≤ length s → length (take n s) ≡ n
length-take zero s h = refl
length-take (suc n) [] h = absurd (omega arith)
length-take (suc n) (x ∷ s) h = omega (arith, length-take n s)

-- `TruncateQuery` returns a query of at most `max_len` bytes as it is; of a longer one it returns
-- the first `max_len` bytes and three dots.
pub truncate_query_lem :
    (query : Bytes) (max_len : ℕ)
    → ((length query ≤ max_len) × (truncate_query query max_len ≡ query))
      ⊎ ((max_len < length query)
          × (truncate_query query max_len ≡ take max_len query ++ codes "...")
          × (length (truncate_query query max_len) ≡ max_len + 3))
unfolding truncate_query
truncate_query_lem query max_len = elim (Bool-cases (leb (length query) max_len)) [
  | inl e ↦ inl (leb→le _ _ e, rw e)
  | inr e ↦ inr (
    ground arith,
    rw e,
    rw e (
        omega (
          arith,
          length-append (take max_len query) (codes "..."),
          length-take max_len query (ground arith),
        )),
  )
]
