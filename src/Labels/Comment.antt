-- ===== src/Labels/Comment.antt =====
-- What a server reads of the label that cmd/mysql-mcp-server/labels.go puts in front of a statement.
use mysql_mcp_server.Prelude.{
  ◌≡◌, refl, ℕ, zero, suc, ◌+◌, ◌/◌, ◌%◌, ◌≤◌, ◌<◌, Bool, true, false, not, ◌&&◌, List, [], ◌∷◌,
  ◌++◌, all, Option, none, some, Bytes, codes, equal, length, arith, ◌==◌, if◌then◌else◌,
}
use mysql_mcp_server.Prelude.Decimal.{decimal_on, decimal}
use mysql_mcp_server.Config.Env.{word}
use mysql_mcp_server.Labels.{
  CallLabel, hex_digit, hex_of, new_req_prefix, is_label, sanitize_on, sanitize_label,
  with_call_label, label_query,
}

-- What stands behind the first `*/`.
unfoldable pub after_end : Bytes → Option Bytes
after_end [] = none
after_end (x ∷ []) = none
after_end (x ∷ y ∷ s) =
    let rest = after_end (y ∷ s) in if x == b'*' && y == b'/' then some s else rest

-- A statement without the comment that it starts with.
abbrev pub without_comment : Bytes → Option Bytes
without_comment [] = none
without_comment (x ∷ []) = none
without_comment (x ∷ y ∷ s) = if x == b'/' && y == b'*' then after_end s else none

abbrev no_star : ℕ → Bool
no_star c = not (c == b'*')

after_end-append :
    (body t : Bytes) → all no_star body ≡ true → after_end (body ++ (b'*' ∷ b'/' ∷ t)) ≡ some t
unfolding after_end
after_end-append [] t h = refl
after_end-append (x ∷ []) t h = ground arith
after_end-append (x ∷ y ∷ body) t h = ground (arith, after_end-append (y ∷ body) t)

all-append : (xs ys : Bytes) → all no_star (xs ++ ys) ≡ (all no_star xs && all no_star ys)
all-append [] ys = refl
all-append (x ∷ xs) ys = ground (arith, all-append xs ys)

sanitize_on-no_star : (n : ℕ) (s : Bytes) → all no_star (sanitize_on n s) ≡ true
unfolding sanitize_on is_label
sanitize_on-no_star n [] = refl
sanitize_on-no_star n (c ∷ s) =
    ground (arith, sanitize_on-no_star (suc n) s, sanitize_on-no_star n s)

decimal_on-no_star : (fuel n : ℕ) → all no_star (decimal_on fuel n) ≡ true
unfolding decimal_on
decimal_on-no_star zero n = refl
decimal_on-no_star (suc fuel) n = ground (
  arith,
  decimal_on-no_star fuel (n / 10),
  all-append (decimal_on fuel (n / 10)) ((b'0' + n % 10) ∷ []),
)

hex_of-no_star : (b : List ℕ) → all no_star (hex_of b) ≡ true
unfolding hex_of hex_digit
hex_of-no_star [] = refl
hex_of-no_star (x ∷ xs) = ground (arith, hex_of-no_star xs)

new_req_prefix-no_star : (b : Option (List ℕ)) → all no_star (new_req_prefix b) ≡ true
unfolding new_req_prefix
new_req_prefix-no_star none = refl
new_req_prefix-no_star (some b) = hex_of-no_star b

label_query-without :
    (l : CallLabel) (query : Bytes)
    → equal (l.tool) [] ≡ false
    → all no_star (l.tool) ≡ true
    → all no_star (l.req) ≡ true
    → without_comment (label_query true (some l) query) ≡ some (b' ' ∷ query)
unfolding label_query
label_query-without l query e t r =
    let body = codes " mcp:tool=" ++ (l.tool ++ (codes " req=" ++ (l.req ++ codes " "))) in
    let stars : all no_star body ≡ true = ground (
      arith,
      all-append (l.tool) (codes " req=" ++ (l.req ++ codes " ")),
      all-append (l.req) (codes " "),
    ) in
    rw e (after_end-append body (b' ' ∷ query) stars)

-- The label of a call is a comment that ends where the label does, whatever the tool is named: what
-- the server reads behind it is the blank and the statement. The tool's name has a byte that labels
-- may have, and labels are enabled.
pub label_query-without_comment :
    (random : Option (List ℕ)) (seq : ℕ) (tool query : Bytes)
    → equal (sanitize_label tool) [] ≡ false
    → without_comment
        (label_query true (some ((with_call_label (new_req_prefix random) seq tool).0)) query)
      ≡ some (b' ' ∷ query)
unfolding with_call_label sanitize_label decimal
label_query-without_comment random seq tool query e =
    label_query-without ((with_call_label (new_req_prefix random) seq tool).0) query e
      (sanitize_on-no_star 0 tool)
      (ground (
        arith,
        new_req_prefix-no_star random,
        decimal_on-no_star 20 ((seq + 1) % word),
        all-append (new_req_prefix random) (codes "-" ++ decimal ((seq + 1) % word)),
      ))

sanitize_on-label :
    (n : ℕ) (s : Bytes)
    → n < 64
    → (length (sanitize_on n s) + n ≤ 64) × (all is_label (sanitize_on n s) ≡ true)
unfolding sanitize_on
sanitize_on-label n [] h = (omega arith, refl)
sanitize_on-label n (c ∷ s) h = ground (arith, sanitize_on-label (suc n) s, sanitize_on-label n s)

-- A sanitized label has at most 64 bytes, all of them letters, digits, `_`, `-` and `.`.
pub sanitize_label_lem :
    (s : Bytes) → (length (sanitize_label s) ≤ 64) × (all is_label (sanitize_label s) ≡ true)
unfolding sanitize_label
sanitize_label_lem s = let (l, a) = sanitize_on-label 0 s (omega arith) in (omega arith, a)
