-- ===== src/Config/Env/Csv.antt =====
-- `parseCSVList` reads back the list that was joined by commas.
use mysql_mcp_server.Prelude.{
  ℕ, ◌≡◌, ◌≢◌, ◌∙◌, refl, ap, false, List, [], ◌∷◌, ◌++◌, arith, Bytes, codes, equal_iff,
  trim_space, split_on, join, contains_byte, ◌==◌, All,
}
use mysql_mcp_server.Config.Env.{parse_csv_list, keep_parts}

-- An entry that stands in the list as it is: trimmed, not empty and without a comma.
pub record IsEntry (s : Bytes) : Type 0 where
  pub trimmed : trim_space s ≡ s
  pub some_byte : s ≢ []
  pub no_comma : contains_byte s b',' ≡ false

split_on-cons :
    (c : ℕ) (s part : Bytes) (parts : List Bytes)
    → (c == b',') ≡ false
    → split_on b',' s ≡ part ∷ parts
    → split_on b',' (c ∷ s) ≡ (c ∷ part) ∷ parts
unfolding split_on
split_on-cons c s part parts h e = rw e (rw h refl)

split_on-none : (s : Bytes) → contains_byte s b',' ≡ false → split_on b',' s ≡ s ∷ []
unfolding split_on contains_byte
split_on-none [] h = refl
split_on-none (c ∷ s) h = split_on-cons c s s [] (ground arith) (split_on-none s (ground arith))

-- the text in front of the first comma
split_on-comma :
    (s t part : Bytes) (parts : List Bytes)
    → contains_byte s b',' ≡ false
    → split_on b',' t ≡ part ∷ parts
    → split_on b',' (s ++ (b',' ∷ t)) ≡ s ∷ part ∷ parts
unfolding split_on contains_byte
split_on-comma [] t part parts h e = rw e refl
split_on-comma (c ∷ s) t part parts h e =
    split_on-cons c (s ++ (b',' ∷ t)) s (part ∷ parts) (ground arith)
      (split_on-comma s t part parts (ground arith) e)

split_on-join :
    (s : Bytes) (names : List Bytes)
    → All IsEntry (s ∷ names)
    → split_on b',' (join (codes ",") (s ∷ names)) ≡ s ∷ names
unfolding join
split_on-join s [] (p, _) = split_on-none s p.no_comma
split_on-join s (t ∷ names) (p, q) =
    split_on-comma s (join (codes ",") (t ∷ names)) t names p.no_comma (split_on-join t names q)

keep_parts-entries : (names : List Bytes) → All IsEntry names → keep_parts names ≡ names
unfolding keep_parts
keep_parts-entries [] _ = refl
keep_parts-entries (s ∷ names) (p, q) =
    ground (arith, p.trimmed, p.some_byte, equal_iff s [], keep_parts-entries names q)

-- A list of entries that are trimmed, not empty and without comma, joined by commas, is read back by
-- `parseCSVList`.
pub parse_csv_list-join :
    (names : List Bytes) → All IsEntry names → parse_csv_list (join (codes ",") names) ≡ names
unfolding parse_csv_list join split_on keep_parts
parse_csv_list-join [] _ = refl
parse_csv_list-join (s ∷ names) v =
    ap keep_parts (split_on-join s names v) ∙ keep_parts-entries (s ∷ names) v
