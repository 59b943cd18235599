-- ===== src/Tools/Scan/Pages.antt =====
-- Reading a result page by page: `runQueryScan` of cmd/mysql-mcp-server/tools.go on the text of
-- `InjectLimitWithOffset` of internal/util/sql_parser.go, as `toolRunQuery` calls them for an offset,
-- by a client that goes on at `next_offset`.
use mysql_mcp_server.Prelude.{
  ◌≡◌, ◌∙◌, refl, sym, ap, inl, inr, ℕ, zero, suc, ◌+◌, ◌≤◌, ◌<◌, ◌%◌, Bool, true, false, List, [],
  ◌∷◌, ◌++◌, map, Option, none, some, Bytes, arith, ltb, length, length-drop, take, drop, drop-drop,
  take-all, trim_space, if◌then◌else◌, Bool-cases, ok, err,
}
use mysql_mcp_server.Config.Env.{word, half, positive}
use mysql_mcp_server.Parser.Syntax.{Statement, Grammar}
use mysql_mcp_server.Parser.Limit.{top_limit, inject_limit_with_offset}
use mysql_mcp_server.Parser.Limit.Printed.{inject_limit_with_offset-ok}
use mysql_mcp_server.Tools.Scan.{
  DriverValue, normalize_value, Row, Cursor, Server, QueryResult, Ending, exhausted, more, cut,
  scan_loop, finish, result, use_statements, execute_all, read_cursor, run_query_scan,
}

abbrev pub normalize_row : List DriverValue → Row
normalize_row values = map normalize_value values

-- A cursor over rows without an error.
abbrev pub cursor_of : List Bytes → List (List DriverValue) → Cursor
cursor_of columns rows = record {
  columns = ok columns;
  scans = map ok rows;
  iteration = none;
  closing = none;
}

abbrev ending_of : Bool → Bool → Ending
ending_of paginated true = if paginated then more else cut
ending_of paginated false = exhausted

scan_loop-ok :
    (limit : ℕ) (paginated : Bool) (count left : ℕ) (rows : List (List DriverValue))
    → count + left ≡ limit
    → scan_loop limit paginated count (map ok rows)
      ≡ ok (map normalize_row (take left rows), ending_of paginated (ltb left (length rows)))
unfolding scan_loop
scan_loop-ok limit paginated count zero [] e = refl
scan_loop-ok limit paginated count (suc left) [] e =
    let g : ltb (suc left) 0 ≡ false = ground arith in rw g refl
scan_loop-ok limit paginated count zero (row ∷ rows) e =
    let f : ltb count limit ≡ false = ground arith in
    let g : ltb 0 (suc (length rows)) ≡ true = ground arith in rw (f, g) refl
scan_loop-ok limit paginated count (suc left) (row ∷ rows) e =
    let f : ltb count limit ≡ true = ground arith in
    let g : ltb (suc left) (suc (length rows)) ≡ ltb left (length rows) = ground arith in
    rw (f, g, scan_loop-ok limit paginated (suc count) left rows (omega arith)) refl

-- The result for a page of the table.
abbrev pub page_of : List Bytes → List (List DriverValue) → ℕ → ℕ → QueryResult
page_of columns all limit offset = record {
  columns = columns;
  rows = map normalize_row (take limit (drop offset all));
  truncated = false;
  has_more = ltb limit (length (drop offset all));
  next_offset =
      if ltb limit (length (drop offset all)) then some ((offset + limit) % word) else none;
  warning = [];
}

-- A server that takes connections, selects the database and answers the statement with an OFFSET by
-- the rows of a table from there on, up to the LIMIT.
pub record Serves (g : Grammar) (server : Server) (sql_text database : Bytes) (limit : ℕ)
    (columns : List Bytes) (all : List (List DriverValue)) : Type 0 where
  pub connected : server.connection ≡ none
  pub selected : List Bytes
  pub selects : use_statements database ≡ ok selected
  pub executes : execute_all server selected ≡ ok tt
  pub answers :
      (offset : ℕ) (t : Bytes)
      → inject_limit_with_offset g sql_text (suc limit) offset ≡ ok t
      → server.answer selected t ≡ ok (cursor_of columns (take (suc limit) (drop offset all)))

-- A page, as `toolRunQuery` asks for it.
abbrev pub page : Grammar → Server → Bytes → Bytes → ℕ → ℕ → Option QueryResult
page g server sql_text database limit offset =
    elim (inject_limit_with_offset g sql_text (suc limit) offset) [
      | err e ↦ none
      | ok t ↦ elim (run_query_scan server t database limit true offset) [
        | err e ↦ none
        | ok out ↦ some out
      ]
    ]

take-take : {A : Type 0} (n : ℕ) (xs : List A) → take n (take (suc n) xs) ≡ take n xs
take-take zero xs = refl
take-take (suc n) [] = refl
take-take (suc n) (x ∷ xs) = ap (λ t. x ∷ t) (take-take n xs)

ltb-length-take :
    {A : Type 0} (n : ℕ) (xs : List A) → ltb n (length (take (suc n) xs)) ≡ ltb n (length xs)
ltb-length-take n [] = refl
ltb-length-take zero (x ∷ xs) = ground arith
ltb-length-take (suc n) (x ∷ xs) = ground (arith, ltb-length-take n xs)

module _ (g : Grammar) (server : Server) (sql_text database : Bytes) (limit : ℕ)
    (columns : List Bytes) (all : List (List DriverValue))
    (serves : Serves g server sql_text database limit columns all) where
  read_page :
      (offset : ℕ)
      → read_cursor (cursor_of columns (take (suc limit) (drop offset all))) limit true offset
        ≡ ok (page_of columns all limit offset)
  unfolding read_cursor finish result
  read_page offset =
      rw (scan_loop-ok limit true 0 limit (take (suc limit) (drop offset all)) (omega arith)) (
        rw (take-take limit (drop offset all), ltb-length-take limit (drop offset all))
          (elim (Bool-cases (ltb limit (length (drop offset all)))) [
            | inl e ↦ rw e refl
            | inr e ↦ rw e refl
          ]))

  run_page :
      (offset : ℕ) (t : Bytes)
      → inject_limit_with_offset g sql_text (suc limit) offset ≡ ok t
      → run_query_scan server t database limit true offset ≡ ok (page_of columns all limit offset)
  unfolding run_query_scan
  run_page offset t e =
      rw (serves.connected, serves.selects, serves.executes, serves.answers offset t e)
        (read_page offset)

-- Reading on from an offset, page after page, while there is a next offset.
abbrev pub read_pages : Grammar → Server → Bytes → Bytes → ℕ → ℕ → ℕ → Option (List Row)
read_pages g server sql_text database limit zero offset = none
read_pages g server sql_text database limit (suc fuel) offset =
    elim (page g server sql_text database limit offset) [
      | none ↦ none
      | some out ↦ elim (out.next_offset) [
        | none ↦ some (out.rows)
        | some next ↦ elim (read_pages g server sql_text database limit fuel next) [
          | none ↦ none
          | some rest ↦ some (out.rows ++ rest)
        ]
      ]
    ]

map-take-drop :
    {A B : Type 0} (f : A → B) (n : ℕ) (xs : List A)
    → map f (take n xs) ++ map f (drop n xs) ≡ map f xs
map-take-drop f zero xs = refl
map-take-drop f (suc n) [] = refl
map-take-drop f (suc n) (x ∷ xs) = ap (λ t. f x ∷ t) (map-take-drop f n xs)

module _ (g : Grammar) (server : Server) (sql_text database : Bytes) (limit : ℕ)
    (columns : List Bytes) (all : List (List DriverValue))
    (serves : Serves g server sql_text database limit columns all) (stmt : Statement)
    (parsed : g.parse (trim_space sql_text) ≡ some stmt) (unlimited : top_limit stmt ≡ some false)
    (some_rows : 0 < limit) (small : length all + suc limit < half) where
  page-page_of :
      (offset : ℕ)
      → offset ≤ length all
      → page g server sql_text database limit offset ≡ some (page_of columns all limit offset)
  page-page_of offset le =
      let pos : positive (suc limit) ≡ true = ground arith in
      let (t, e) =
        inject_limit_with_offset-ok g sql_text (suc limit) offset stmt parsed unlimited pos
          (omega arith) in
      rw (page, e, run_page g server sql_text database limit columns all serves offset t e) refl

  pages_from :
      (fuel offset : ℕ)
      → offset ≤ length all
      → length all < fuel + offset
      → read_pages g server sql_text database limit fuel offset
        ≡ some (map normalize_row (drop offset all))
  pages_from zero offset le h = absurd (omega arith)
  pages_from (suc fuel) offset le h =
      rw (read_pages, page-page_of offset le)
        (elim (Bool-cases (ltb limit (length (drop offset all)))) [
          | inr e ↦ rw (e, take-all limit (drop offset all) (ground arith)) refl
          | inl e ↦
              let l : offset + limit ≤ length all = ground (arith, length-drop offset all) in
              let n : (offset + limit) % word ≡ offset + limit = omega arith in
              rw (e, n, pages_from fuel (offset + limit) l (omega arith))
                (ap some (
                  ap (λ t. map normalize_row (take limit (drop offset all)) ++ map normalize_row t)
                    (sym (drop-drop offset limit all))
                  ∙ map-take-drop normalize_row limit (drop offset all)))
        ])

-- Reading page after page gives every row of the table once, in order: on a server that answers the
-- statement with an OFFSET by the rows from there on, up to the LIMIT, for a SELECT or a UNION without
-- a LIMIT and a positive limit on the rows of a page, and with the number of rows as fuel, and one.
pub read_pages_lem :
    (g : Grammar) (server : Server) (sql_text database : Bytes) (limit : ℕ) (columns : List Bytes)
    (all : List (List DriverValue)) (stmt : Statement)
    → Serves g server sql_text database limit columns all
    → g.parse (trim_space sql_text) ≡ some stmt
    → top_limit stmt ≡ some false
    → 0 < limit
    → length all + suc limit < half
    → read_pages g server sql_text database limit (suc (length all)) 0
      ≡ some (map normalize_row all)
read_pages_lem g server sql_text database limit columns all stmt serves parsed unlimited pos small =
    pages_from g server sql_text database limit columns all serves stmt parsed unlimited pos small
      (suc (length all)) 0 (omega arith) (omega arith)
