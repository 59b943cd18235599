-- ===== src/Tools/Scan/Rows.antt =====
-- The rows that `runQueryScan` of cmd/mysql-mcp-server/tools.go takes from the database.
use mysql_mcp_server.Prelude.{
  ◌≡◌, refl, sym, ap, subst, inl, inr, ℕ, suc, ◌+◌, ◌-◌, ◌≤◌, ◌%◌, Bool, true, false, List, [], ◌∷◌,
  none, some, Bytes, arith, ltb, length, if◌then◌else◌, Bool-cases, Result, ok, err, wrap,
  wrap-eq-ok, bind-eq-ok, ok-injective,
}
use mysql_mcp_server.Config.Env.{word}
use mysql_mcp_server.Retry.{DbError}
use mysql_mcp_server.Tools.Scan.{
  DriverValue, Row, Cursor, Server, QueryResult, no_connection, query_failed, no_columns, Ending,
  check, is_cut, is_more, scan_loop, finish, result, use_statements, execute_all, read_cursor,
  run_query_scan,
}

-- The loop takes at most what is left up to the limit, and ends with `more` only for pages.
abbrev Taken : ℕ → Bool → List Row × Ending → Type 0
Taken left paginated (rows, ending) =
    (length rows ≤ left)
    × (is_more ending ≡ true → paginated ≡ true)
    × (is_cut ending ≡ true → paginated ≡ false)

scan_loop-Taken :
    (limit : ℕ) (paginated : Bool) (count : ℕ) (scans : List (Result DbError (List DriverValue)))
    (taken : List Row × Ending)
    → count ≤ limit
    → scan_loop limit paginated count scans ≡ ok taken
    → Taken (limit - count) paginated taken
unfolding scan_loop
scan_loop-Taken limit paginated count [] taken le h =
    subst (Taken (limit - count) paginated) (ok-injective h)
      ((omega arith), (λ e. absurd (cc)), (λ e. absurd (cc)))
scan_loop-Taken limit paginated count (err e ∷ rest) taken le h = absurd (cc)
scan_loop-Taken limit paginated count (ok vs ∷ rest) taken le h =
    elim (Bool-cases (ltb count limit)) [
      | inr e ↦ subst (Taken (limit - count) paginated) (ok-injective (rw e at h)) (ground arith)
      | inl e ↦
          let ((rows, ending), f, g) =
            bind-eq-ok (scan_loop limit paginated (suc count) rest) _ (rw e at h) in
          let (l, m, c) =
            scan_loop-Taken limit paginated (suc count) rest (rows, ending) (ground arith) f in
          subst (Taken (limit - count) paginated) (ok-injective g) ((ground arith), m, c)
    ]

-- A cursor with no more rows than the limit is read to its end.
scan_loop-short :
    (limit : ℕ) (paginated : Bool) (count : ℕ) (scans : List (Result DbError (List DriverValue)))
    (taken : List Row × Ending)
    → length scans + count ≤ limit
    → scan_loop limit paginated count scans ≡ ok taken
    → is_cut (taken.1) ≡ false
unfolding scan_loop
scan_loop-short limit paginated count [] taken le h = ap (λ t. is_cut (t.1)) (sym (ok-injective h))
scan_loop-short limit paginated count (err e ∷ rest) taken le h = absurd (cc)
scan_loop-short limit paginated count (ok vs ∷ rest) taken le h =
    let e : ltb count limit ≡ true = ground arith in
    let (t, f, g) = bind-eq-ok (scan_loop limit paginated (suc count) rest) _ (rw e at h) in
    subst (λ t. is_cut (t.1) ≡ false) (ok-injective g)
      (scan_loop-short limit paginated (suc count) rest t (omega arith) f)

-- The parts of a run that succeeded.
run_query_scan-ok :
    (server : Server) (final_sql database : Bytes) (limit : ℕ) (paginated : Bool) (offset : ℕ)
    (out : QueryResult)
    → run_query_scan server final_sql database limit paginated offset ≡ ok out
    → (cursor : Cursor) × (columns : List Bytes) × (taken : List Row × Ending) × ((selected : List
          Bytes)
        × (server.answer selected final_sql ≡ ok cursor))
      × (scan_loop limit paginated 0 (cursor.scans) ≡ ok taken)
      × (result columns limit offset taken ≡ out)
unfolding run_query_scan read_cursor
run_query_scan-ok server final_sql database limit paginated offset out h =
    let (_, _, h1) = bind-eq-ok (check no_connection (server.connection)) _ h in
    let (selected, _, h2) = bind-eq-ok (use_statements database) _ h1 in
    let (_, _, h3) = bind-eq-ok (execute_all server selected) _ h2 in
    let (cursor, a, h4) = bind-eq-ok (wrap query_failed (server.answer selected final_sql)) _ h3 in
    let (columns, _, h5) = bind-eq-ok (wrap no_columns (cursor.columns)) _ h4 in
    let (taken, e, h6) = bind-eq-ok (scan_loop limit paginated 0 (cursor.scans)) _ h5 in
    let (_, _, h7) = bind-eq-ok (finish cursor (taken.1)) _ h6 in
    (cursor, columns, taken, (selected, wrap-eq-ok query_failed _ a), e, ok-injective h7)

-- Whatever the database answers, a result has at most `limit` rows, says that it is truncated only
-- outside pagination and that there is more only within, and then names the next offset.
pub run_query_scan-limit :
    (server : Server) (final_sql database : Bytes) (limit : ℕ) (paginated : Bool) (offset : ℕ)
    (out : QueryResult)
    → run_query_scan server final_sql database limit paginated offset ≡ ok out
    → (length (out.rows) ≤ limit)
      × (out.truncated ≡ true → paginated ≡ false)
      × (out.has_more ≡ true → paginated ≡ true)
      × (out.next_offset ≡ (if out.has_more then some ((offset + limit) % word) else none))
unfolding result
run_query_scan-limit server final_sql database limit paginated offset out h =
    let (cursor, columns, (rows, ending), _, e, f) =
      run_query_scan-ok server final_sql database limit paginated offset out h in
    let (l, m, c) =
      scan_loop-Taken limit paginated 0 (cursor.scans) (rows, ending) (omega arith) e in
    subst
      (λ (q : QueryResult).
        (length (q.rows) ≤ limit)
        × (q.truncated ≡ true → paginated ≡ false)
        × (q.has_more ≡ true → paginated ≡ true)
        × (q.next_offset ≡ (if q.has_more then some ((offset + limit) % word) else none)))
      f ((omega arith), c, m, refl)

-- A result is not truncated when the statement gives at most `limit` rows.
pub run_query_scan-short :
    (server : Server) (final_sql database : Bytes) (limit : ℕ) (paginated : Bool) (offset : ℕ)
    (out : QueryResult)
    → ((selected : List Bytes) (cursor : Cursor)
        → server.answer selected final_sql ≡ ok cursor
        → length (cursor.scans) ≤ limit)
    → run_query_scan server final_sql database limit paginated offset ≡ ok out
    → out.truncated ≡ false
unfolding result
run_query_scan-short server final_sql database limit paginated offset out short h =
    let (cursor, columns, taken, (selected, a), e, f) =
      run_query_scan-ok server final_sql database limit paginated offset out h in
    subst (λ (q : QueryResult). q.truncated ≡ false) f
      (scan_loop-short limit paginated 0 (cursor.scans) taken
        (omega (arith, short selected cursor a)) e)
