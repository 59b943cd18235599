-- ===== src/Util/Literals/Contents.antt =====
-- The scan does not depend on what stands inside a literal.
use mysql_mcp_server.Prelude.{
  ℕ, ◌≡◌, ◌≢◌, ◌⊎◌, refl, List, [], ◌∷◌, ◌++◌, arith, Bytes, All, true, false, ap, ◌∙◌,
}
use mysql_mcp_server.Util.Literals.{
  outside, inside, Quote, single, double, backtick, content, escaped, doubled, round, mark, escapes,
  strip_from, strip_literals, opened,
}
use mysql_mcp_server.Util.Literals.Blanking.{IsPlain, strip_from-append}

-- A byte that stands for itself inside the literal.
abbrev pub IsContent : Quote → ℕ → Type 0
IsContent q c = (c ≢ mark q) × ((escapes q ≡ false) ⊎ (c ≢ 92))

-- What a literal is written of: a byte that stands for itself, a backslash with the byte it escapes,
-- and the quote, doubled.
pub data Item : Type 0 where
  plain_byte : ℕ → Item
  escape : ℕ → Item
  quote : Item

-- In backticks a backslash escapes nothing.
abbrev pub IsItem : Quote → Item → Type 0
IsItem q (plain_byte c) = IsContent q c
IsItem q (escape c) = escapes q ≡ true
IsItem q quote = Unit

abbrev pub written : Quote → List Item → Bytes
written q [] = []
written q (plain_byte c ∷ items) = c ∷ written q items
written q (escape c ∷ items) = 92 ∷ c ∷ written q items
written q (quote ∷ items) = mark q ∷ mark q ∷ written q items

-- Blanks, but for the first of two quotes.
abbrev pub blanked : Quote → List Item → Bytes
blanked q [] = []
blanked q (plain_byte c ∷ items) = b' ' ∷ blanked q items
blanked q (escape c ∷ items) = b' ' ∷ b' ' ∷ blanked q items
blanked q (quote ∷ items) = mark q ∷ b' ' ∷ blanked q items

-- The text behind a literal does not go on with the same quote, which would double it.
abbrev pub NotDoubled : Quote → Bytes → Type 0
NotDoubled q [] = Unit
NotDoubled q (c ∷ s) = c ≢ mark q

strip_from-closing :
    (q : Quote) (rest : Bytes)
    → NotDoubled q rest
    → strip_from (inside q) (mark q ∷ rest) ≡ mark q ∷ strip_from outside rest
unfolding strip_from
strip_from-closing q [] h = ground arith
strip_from-closing q (c ∷ s) h = ground arith

round-content : (q : Quote) (c d : ℕ) → IsContent q c → round q c d ≡ content
round-content q c d h = ground arith

round-escape : (q : Quote) (c : ℕ) → escapes q ≡ true → round q 92 c ≡ escaped
round-escape single c h = refl
round-escape double c h = refl
round-escape backtick c h = absurd (cc)

round-quote : (q : Quote) → round q (mark q) (mark q) ≡ doubled
round-quote single = refl
round-quote double = refl
round-quote backtick = refl

strip_from-plain_byte :
    (q : Quote) (c : ℕ) (s : Bytes) (d : ℕ) (rest : Bytes)
    → IsContent q c
    → strip_from (inside q) (c ∷ (s ++ (d ∷ rest))) ≡ b' ' ∷ strip_from (inside q) (s ++ (d ∷ rest))
unfolding strip_from
strip_from-plain_byte q c [] d rest h = ground (arith, round-content q c d h)
strip_from-plain_byte q c (e ∷ s) d rest h = ground (arith, round-content q c e h)

strip_from-escape :
    (q : Quote) (c : ℕ) (s : Bytes)
    → escapes q ≡ true
    → strip_from (inside q) (92 ∷ c ∷ s) ≡ b' ' ∷ b' ' ∷ strip_from (inside q) s
unfolding strip_from
strip_from-escape q c s h = ground (arith, round-escape q c h)

strip_from-quote :
    (q : Quote) (s : Bytes)
    → strip_from (inside q) (mark q ∷ mark q ∷ s) ≡ mark q ∷ b' ' ∷ strip_from (inside q) s
unfolding strip_from
strip_from-quote q s = ground (arith, round-quote q)

strip_from-body :
    (q : Quote) (items : List Item) (rest : Bytes)
    → All (IsItem q) items
    → NotDoubled q rest
    → strip_from (inside q) (written q items ++ (mark q ∷ rest))
      ≡ blanked q items ++ (mark q ∷ strip_from outside rest)
unfolding strip_from
strip_from-body q [] rest h k = strip_from-closing q rest k
strip_from-body q (plain_byte c ∷ items) rest (p, h) k =
    strip_from-plain_byte q c (written q items) (mark q) rest p
    ∙ ap (λ t. b' ' ∷ t) (strip_from-body q items rest h k)
strip_from-body q (escape c ∷ items) rest (p, h) k =
    strip_from-escape q c (written q items ++ (mark q ∷ rest)) p
    ∙ ap (λ t. b' ' ∷ b' ' ∷ t) (strip_from-body q items rest h k)
strip_from-body q (quote ∷ items) rest (p, h) k =
    strip_from-quote q (written q items ++ (mark q ∷ rest))
    ∙ ap (λ t. mark q ∷ b' ' ∷ t) (strip_from-body q items rest h k)

opened-mark : (q : Quote) → opened (mark q) ≡ inside q
opened-mark q = ground arith

-- A literal behind text without quotes, of any body, is blanked from quote to quote but for its
-- doubled quotes, and the scan goes on behind it as from the start.
pub strip_literals-literal :
    (q : Quote) (before : Bytes) (items : List Item) (rest : Bytes)
    → All IsPlain before
    → All (IsItem q) items
    → NotDoubled q rest
    → strip_literals (before ++ (mark q ∷ (written q items ++ (mark q ∷ rest))))
      ≡ before ++ (mark q ∷ (blanked q items ++ (mark q ∷ strip_literals rest)))
unfolding strip_literals
strip_literals-literal q before items rest h k l =
    strip_from-append before _ h
    ∙ ap (λ t. before ++ t)
        (unfold strip_from in (rw opened-mark (rw (strip_from-body q items rest k l))))
