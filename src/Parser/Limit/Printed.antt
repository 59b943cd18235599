-- ===== src/Parser/Limit/Printed.antt =====
-- The LIMIT that internal/util/sql_parser.go appends, read back, and the two ways to append one.
use mysql_mcp_server.Prelude.{
  ◌≡◌, ◌∙◌, refl, sym, inl, inr, ℕ, zero, suc, ◌+◌, ◌-◌, ◌*◌, ◌/◌, ◌%◌, ◌^◌, ◌<◌, true, false, [],
  ◌∷◌, ◌++◌, append_assoc, some, Bytes, codes, trim_space, arith, leb, ltb, Bool-cases,
  Option-cases, ok, ok-injective,
}
use mysql_mcp_server.Prelude.Decimal.{decimal_on, decimal}
use mysql_mcp_server.Config.Env.{half, positive, digits}
use mysql_mcp_server.Parser.Syntax.{Statement, Grammar}
use mysql_mcp_server.Parser.Limit.{
  top_limit, base, inject_limit, inject_limit_with_offset, paginate,
}

digits-snoc :
    (m : ℕ) (s : Bytes) (k d : ℕ)
    → digits m s ≡ some k
    → d < 10
    → digits m (s ++ ((b'0' + d) ∷ [])) ≡ some (k * 10 + d)
unfolding digits
digits-snoc m [] k d h l = ground arith
digits-snoc m (c ∷ s) k d h l = ground (arith, digits-snoc (m * 10 + (c - b'0')) s k d)

digits-decimal_on : (fuel n : ℕ) → n < 10 ^ fuel → digits 0 (decimal_on fuel n) ≡ some n
unfolding digits decimal_on
digits-decimal_on zero n h = ground arith
digits-decimal_on (suc fuel) n h = elim (Bool-cases (ltb n 10)) [
  | inl e ↦ rw e (ground arith)
  | inr e ↦ rw e (
      digits-snoc 0 (decimal_on fuel (n / 10)) (n / 10) (n % 10)
        (digits-decimal_on fuel (n / 10) (omega arith)) (omega arith)
      ∙ (ground arith))
]

-- A number below 2 ^ 63 that is printed in decimal is read back.
pub digits-decimal : (n : ℕ) → n < half → digits 0 (decimal n) ≡ some n
unfolding decimal
digits-decimal n h = digits-decimal_on 20 n (omega arith)

-- For a positive limit, when `InjectLimitWithOffset` gives a text, it is the text that
-- `InjectLimit` gives with an OFFSET behind it, and the offset is not negative.
pub inject_limit_with_offset-inject_limit :
    (g : Grammar) (text t : Bytes) (limit offset : ℕ)
    → positive limit ≡ true
    → inject_limit_with_offset g text limit offset ≡ ok t
    → (t ≡ inject_limit g text limit ++ (codes " OFFSET " ++ decimal offset)) × (offset < half)
unfolding inject_limit inject_limit_with_offset paginate
inject_limit_with_offset-inject_limit g text t limit offset h k =
    elim (Bool-cases (leb half offset)) [
      | inl e ↦ absurd (let l = rw (h, e) at k in cc)
      | inr e ↦ elim (Option-cases (g.parse (trim_space text))) [
        | inl f ↦ absurd (let l = rw (h, e, f) at k in cc)
        | inr (stmt, f) ↦ elim (Option-cases (top_limit stmt)) [
          | inl d ↦ absurd (let l = rw (h, e, f, d) at k in cc)
          | inr (true, d) ↦ absurd (let l = rw (h, e, f, d) at k in cc)
          | inr (false, d) ↦
              let l = rw (h, e, f, d) at k in
              (
                rw (h, f, d)
                    (sym (ok-injective l)
                      ∙ sym (
                          append_assoc (base (trim_space text)) (codes " LIMIT " ++ decimal limit)
                            (codes " OFFSET " ++ decimal offset))),
                ground arith,
              )
        ]
      ]
    ]

-- Of a SELECT or a UNION without a LIMIT, `InjectLimitWithOffset` gives a page.
pub inject_limit_with_offset-ok :
    (g : Grammar) (text : Bytes) (limit offset : ℕ) (stmt : Statement)
    → g.parse (trim_space text) ≡ some stmt
    → top_limit stmt ≡ some false
    → positive limit ≡ true
    → offset < half
    → (t : Bytes) × (inject_limit_with_offset g text limit offset ≡ ok t)
unfolding inject_limit_with_offset paginate
inject_limit_with_offset-ok g text limit offset stmt e d h k =
    let f : leb half offset ≡ false = ground arith in
    (
      base (trim_space text)
          ++ (codes " LIMIT " ++ (decimal limit ++ (codes " OFFSET " ++ decimal offset))),
      rw (h, f, e, d) refl,
    )
