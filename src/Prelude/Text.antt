-- ===== src/Prelude/Text.antt =====
-- Go strings as lists of bytes, with the functions of the standard library's `strings` package
-- that the program calls. Case mapping and trimming treat a byte from 128 on as itself.
use Prim.Native.Nat.{ℕ, suc, ◌+◌, ◌-◌}
use Prim.Native.Char.{code}
use Prim.Native.String.{String}
use mathlib.Core.Path.{◌≡◌, refl}
use mathlib.Core.Logic.{◌↔◌}
use mathlib.Core.Bool.{Bool, true, false, ◌&&◌, ◌||◌}
use mathlib.Core.Option.{Option, none, some}
use mathlib.Core.Option
use mathlib.Core.List.{List, [], ◌∷◌, ◌++◌, map}
use native.Mathlib.Omega.{arith}
use mysql_mcp_server.Prelude.Tests.{leb, ◌==◌, if◌then◌else◌}
use mysql_mcp_server.Prelude.Lists.{any}

abbrev pub Bytes : Type 0
Bytes = List ℕ

-- The bytes of an ASCII text.
abbrev pub codes : String → Bytes
codes String.[] = []
codes (String.◌∷◌ c s) = code c ∷ codes s

abbrev pub within : ℕ → ℕ → ℕ → Bool
within lo hi c = leb lo c && leb c hi

unfoldable pub byte_upper : ℕ → ℕ
byte_upper c = if within b'a' b'z' c then c - 32 else c

unfoldable pub byte_lower : ℕ → ℕ
byte_lower c = if within b'A' b'Z' c then c + 32 else c

-- `strings.ToUpper`, `strings.ToLower`
unfoldable pub to_upper : Bytes → Bytes
unfolding byte_upper
to_upper s = map byte_upper s

unfoldable pub to_lower : Bytes → Bytes
unfolding byte_lower
to_lower s = map byte_lower s

-- the ASCII part of `unicode.IsSpace`: \t \n \v \f \r and the blank
unfoldable pub is_space : ℕ → Bool
is_space c = within 9 13 c || c == b' '

unfoldable pub equal : Bytes → Bytes → Bool
equal [] [] = true
equal (x ∷ xs) (y ∷ ys) = x == y && equal xs ys
equal _ _ = false

-- `strings.HasPrefix s p`
unfoldable pub has_prefix : Bytes → Bytes → Bool
has_prefix s [] = true
has_prefix [] (y ∷ p) = false
has_prefix (x ∷ s) (y ∷ p) = x == y && has_prefix s p

-- `strings.HasSuffix s p`
unfoldable pub has_suffix : Bytes → Bytes → Bool
unfolding equal
has_suffix [] p = equal [] p
has_suffix (x ∷ s) p = equal (x ∷ s) p || has_suffix s p

-- `strings.Contains s p`
unfoldable pub contains : Bytes → Bytes → Bool
unfolding has_prefix
contains [] p = has_prefix [] p
contains (x ∷ s) p = has_prefix (x ∷ s) p || contains s p

unfoldable pub contains_byte : Bytes → ℕ → Bool
contains_byte s c = any (λ x. x == c) s

-- `strings.ContainsAny s chars`, for ASCII `chars`
unfoldable pub contains_any : Bytes → Bytes → Bool
unfolding contains_byte
contains_any s chars = any (λ x. contains_byte chars x) s

-- `strings.TrimLeftFunc` and `strings.TrimRightFunc`
unfoldable pub trim_left : (ℕ → Bool) → Bytes → Bytes
trim_left p [] = []
trim_left p (x ∷ s) = if p x then trim_left p s else x ∷ s

unfoldable pub trim_right : (ℕ → Bool) → Bytes → Bytes
trim_right p [] = []
trim_right p (x ∷ s) = elim (trim_right p s) [ [] ↦ if p x then [] else x ∷ [] | y ∷ t ↦ x ∷ y ∷ t ]

unfoldable pub trim_space : Bytes → Bytes
unfolding trim_left trim_right is_space
trim_space s = trim_right is_space (trim_left is_space s)

-- The text up to the first byte of a kind, and from there on.
unfoldable pub take_until : (ℕ → Bool) → Bytes → Bytes
take_until p [] = []
take_until p (x ∷ s) = if p x then [] else x ∷ take_until p s

-- `strings.Index s p`: the first position, `none` for -1
unfoldable pub index : Bytes → Bytes → Option ℕ
unfolding has_prefix
index [] p = if has_prefix [] p then some 0 else none
index (x ∷ s) p = if has_prefix (x ∷ s) p then some 0 else Option.map suc (index s p)

-- `strings.Split s sep` for a separator of one byte
unfoldable pub split_on : ℕ → Bytes → List Bytes
split_on sep [] = [] ∷ []
split_on sep (x ∷ s) = elim (split_on sep s) [
  | [] ↦ [] ∷ []
  | part ∷ parts ↦ if x == sep then [] ∷ part ∷ parts else (x ∷ part) ∷ parts
]

-- `strings.Join parts sep`
unfoldable pub join : Bytes → List Bytes → Bytes
join sep [] = []
join sep (s ∷ []) = s
join sep (s ∷ t ∷ rest) = s ++ (sep ++ join sep (t ∷ rest))

pub equal_iff : (s t : Bytes) → (equal s t ≡ true) ↔ (s ≡ t)
unfolding equal
equal_iff [] [] = ground arith
equal_iff [] (d ∷ t) = ground arith
equal_iff (c ∷ s) [] = ground arith
equal_iff (c ∷ s) (d ∷ t) = ground (arith, equal_iff s t)

pub equal_refl : (a : Bytes) → equal a a ≡ true
equal_refl a = (equal_iff a a).1 refl
