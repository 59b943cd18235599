-- ===== src/Tools/Mask.antt =====
-- cmd/mysql-mcp-server/tools.go: `maskResults`.
use mysql_mcp_server.Prelude.{
  ◌≡◌, refl, ℕ, zero, suc, Bool, true, false, not, List, [], ◌∷◌, map, Option, none, some, Bytes,
  codes, arith, any, contains, to_lower, if◌then◌else◌,
}
use mysql_mcp_server.Config.Env.{keep_parts}
use mysql_mcp_server.Tools.Scan.{Cell, null, text, Row}

abbrev pub is_empty : {A : Type 0} → List A → Bool
is_empty [] = true
is_empty (x ∷ xs) = false

-- whether a column is to be masked
unfoldable pub is_masked : List Bytes → Bytes → Bool
unfolding contains to_lower
is_masked patterns column = any (λ p. contains (to_lower column) (to_lower p)) patterns

abbrev pub mask_cell : Bool → Cell → Cell
mask_cell true null = null
mask_cell true _ = text (codes "********")
mask_cell false c = c

-- a row, by whether each column is masked; a row may have fewer cells or more
unfoldable pub mask_row : List Bool → Row → Row
mask_row [] row = row
mask_row (m ∷ ms) [] = []
mask_row (m ∷ ms) (c ∷ row) = mask_cell m c ∷ mask_row ms row

-- `maskResults`
unfoldable pub mask_results : List Bytes → List Row → List Bytes → List Row
unfolding keep_parts is_masked mask_row
mask_results columns rows patterns =
    let non_empty = keep_parts patterns in
    if is_empty non_empty
    then rows
    else if not (any (is_masked non_empty) columns)
    then rows
    else map (mask_row (map (is_masked non_empty) columns)) rows

abbrev pub get_elem? : {A : Type 0} → List A → ℕ → Option A
get_elem? [] i = none
get_elem? (x ∷ xs) zero = some x
get_elem? (x ∷ xs) (suc i) = get_elem? xs i

mask_row-none :
    (ps cols : List Bytes) (row : Row)
    → any (is_masked ps) cols ≡ false
    → mask_row (map (is_masked ps) cols) row ≡ row
unfolding mask_row
mask_row-none ps [] row h = refl
mask_row-none ps (c ∷ cols) [] h = refl
mask_row-none ps (c ∷ cols) (x ∷ row) h = ground (arith, mask_row-none ps cols row)

map-mask_row-none :
    (ps cols : List Bytes) (rows : List Row)
    → any (is_masked ps) cols ≡ false
    → map (mask_row (map (is_masked ps) cols)) rows ≡ rows
map-mask_row-none ps cols [] h = refl
map-mask_row-none ps cols (row ∷ rows) h =
    ground (arith, mask_row-none ps cols row, map-mask_row-none ps cols rows)

empty-mask : (ps cols : List Bytes) → is_empty ps ≡ true → any (is_masked ps) cols ≡ false
unfolding is_masked
empty-mask [] [] h = refl
empty-mask [] (c ∷ cols) h = empty-mask [] cols h
empty-mask (p ∷ ps) cols h = absurd (cc)

-- Masking is masking every row: the two shortcuts change nothing.
pub mask_results_lem :
    (cols : List Bytes) (rows : List Row) (patterns : List Bytes)
    → mask_results cols rows patterns
      ≡ map (mask_row (map (is_masked (keep_parts patterns)) cols)) rows
unfolding mask_results
mask_results_lem cols rows patterns = ground (
  arith,
  empty-mask (keep_parts patterns) cols,
  map-mask_row-none (keep_parts patterns) cols rows,
)

abbrev pub map_option : {A B : Type 0} → (A → B) → Option A → Option B
map_option f none = none
map_option f (some a) = some (f a)

-- the cell of a row and a column
abbrev pub cell_at : List Row → ℕ → ℕ → Option Cell
cell_at [] j i = none
cell_at (row ∷ rows) zero i = get_elem? row i
cell_at (row ∷ rows) (suc j) i = cell_at rows j i

-- whether a pattern that is not blank stands in the name of the column
abbrev pub is_masked_at : List Bytes → List Bytes → ℕ → Bool
is_masked_at patterns [] i = false
is_masked_at patterns (c ∷ cols) zero = is_masked (keep_parts patterns) c
is_masked_at patterns (c ∷ cols) (suc i) = is_masked_at patterns cols i

get_elem?-mask_row :
    (ps cols : List Bytes) (row : Row) (i : ℕ)
    → get_elem? (mask_row (map (is_masked (keep_parts ps)) cols) row) i
      ≡ map_option (mask_cell (is_masked_at ps cols i)) (get_elem? row i)
unfolding mask_row
get_elem?-mask_row ps [] [] i = refl
get_elem?-mask_row ps [] (x ∷ row) zero = refl
get_elem?-mask_row ps [] (x ∷ row) (suc i) = get_elem?-mask_row ps [] row i
get_elem?-mask_row ps (c ∷ cols) [] i = refl
get_elem?-mask_row ps (c ∷ cols) (x ∷ row) zero = refl
get_elem?-mask_row ps (c ∷ cols) (x ∷ row) (suc i) = get_elem?-mask_row ps cols row i

cell_at-map :
    (ps cols : List Bytes) (rows : List Row) (j i : ℕ)
    → cell_at (map (mask_row (map (is_masked (keep_parts ps)) cols)) rows) j i
      ≡ map_option (mask_cell (is_masked_at ps cols i)) (cell_at rows j i)
cell_at-map ps cols [] j i = refl
cell_at-map ps cols (row ∷ rows) zero i = get_elem?-mask_row ps cols row i
cell_at-map ps cols (row ∷ rows) (suc j) i = cell_at-map ps cols rows j i

-- After masking, a cell that is not null and whose column's name has one of the patterns in it, case
-- aside, is the mask, and every other cell is the one of before.
pub cell_at-mask_results :
    (cols : List Bytes) (rows : List Row) (patterns : List Bytes) (j i : ℕ)
    → cell_at (mask_results cols rows patterns) j i
      ≡ map_option (mask_cell (is_masked_at patterns cols i)) (cell_at rows j i)
cell_at-mask_results cols rows patterns j i =
    rw (mask_results_lem cols rows patterns) (cell_at-map patterns cols rows j i)
