-- ===== src/Config/Env.antt =====
-- internal/config/config.go: reading numbers, switches and lists from the environment
-- (`getEnvInt`, `getEnvBool`, `parseCSVList`), with `strconv.Atoi`.
pub mod Numbers
pub mod Csv
use mysql_mcp_server.Prelude.{
  ℕ, ◌+◌, ◌-◌, ◌*◌, Bool, true, false, not, ◌&&◌, ◌||◌, List, [], ◌∷◌, Option, none, some, Bytes,
  codes, equal, to_lower, trim_space, within, any, ltb, leb, ◌==◌, if◌then◌else◌, split_on, ◌/◌,
  ◌%◌,
}
use mysql_mcp_server.Config.Types.{Host}

-- 2 ^ 63 and 2 ^ 64
abbrev pub half : ℕ
half = 9223372036854775808

abbrev pub word : ℕ
word = 18446744073709551616

-- nanoseconds
abbrev pub millisecond : ℕ
millisecond = 1000000

abbrev pub second : ℕ
second = 1000000000

abbrev pub minute : ℕ
minute = 60000000000

-- `n > 0` of an `int`
abbrev pub positive : ℕ → Bool
positive n = ltb 0 n && ltb n half

-- `time.Duration(n) * unit`
abbrev pub duration : ℕ → ℕ → ℕ
duration n unit = (n * unit) % word

-- `int(d.Seconds())` and the like: towards zero, without the rounding of the `float64` in between
abbrev pub whole : ℕ → ℕ → ℕ
whole d unit = if ltb d half then d / unit else (word - (word - d) / unit) % word

-- the value of a text of digits, behind `n`
unfoldable pub digits : ℕ → Bytes → Option ℕ
digits n [] = some n
digits n (c ∷ s) =
    let rest = digits (n * 10 + (c - b'0')) s in if within b'0' b'9' c then rest else none

abbrev in_range : ℕ → Option ℕ → Option ℕ
in_range most none = none
in_range most (some n) = if leb n most then some n else none

abbrev negated : Option ℕ → Option ℕ
negated none = none
negated (some n) = some ((word - n) % word)

abbrev number : Bytes → Option ℕ
number [] = none
number (c ∷ s) = digits 0 (c ∷ s)

-- `strconv.Atoi`
unfoldable pub atoi : Bytes → Option ℕ
unfolding digits
atoi [] = none
atoi (c ∷ s) =
    if c == b'-'
    then negated (in_range half (number s))
    else if c == b'+'
    then in_range (half - 1) (number s)
    else in_range (half - 1) (number (c ∷ s))

-- `getEnvInt`
unfoldable pub get_env_int : Host → Bytes → ℕ → ℕ
unfolding equal trim_space atoi
get_env_int h key def =
    let val = trim_space (h.getenv key) in
    if equal val []
    then def
    else elim (atoi val) [ none ↦ def | some n ↦ if positive n then n else def ]

abbrev pub true_words : List Bytes
true_words = codes "1" ∷ codes "true" ∷ codes "yes" ∷ codes "on" ∷ codes "y" ∷ []

-- `getEnvBool`
unfoldable pub get_env_bool : Host → Bytes → Bool
unfolding equal to_lower trim_space
get_env_bool h key = any (equal (trim_space (to_lower (h.getenv key)))) true_words

-- the loop of `parseCSVList`
unfoldable pub keep_parts : List Bytes → List Bytes
unfolding equal trim_space
keep_parts [] = []
keep_parts (p ∷ parts) =
    if equal (trim_space p) [] then keep_parts parts else trim_space p ∷ keep_parts parts

-- `parseCSVList`
unfoldable pub parse_csv_list : Bytes → List Bytes
unfolding keep_parts split_on
parse_csv_list s = keep_parts (split_on b',' s)
