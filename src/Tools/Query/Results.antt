-- ===== src/Tools/Query/Results.antt =====
-- What `toolRunQuery` of cmd/mysql-mcp-server/tools.go returns.
use mysql_mcp_server.Prelude.{
  ◌≡◌, ◌∙◌, refl, sym, ap, subst, inl, inr, ℕ, suc, ◌≤◌, Bool, true, false, List, [], ◌∷◌, ◌++◌,
  map, Option, none, some, Bytes, codes, length, arith, equal, trim_space, ok, wrap-eq-ok,
  bind-eq-ok, ok-injective,
}
use mysql_mcp_server.Prelude.Decimal.{decimal}
use mysql_mcp_server.Config.Env.{positive, keep_parts}
use mysql_mcp_server.Parser.Syntax.{Statement}
use mysql_mcp_server.Parser.Limit.{top_limit, base, inject_limit}
use mysql_mcp_server.Retry.{DbError, do_retry}
use mysql_mcp_server.Tools.Scan.{Cell, null, text, json, Row, Cursor, QueryResult, Server}
use mysql_mcp_server.Tools.Scan.Rows.{run_query_scan-limit, run_query_scan-short}
use mysql_mcp_server.Tools.Mask.{
  mask_cell, mask_row, is_masked, mask_results, mask_results_lem, map_option, cell_at, is_masked_at,
  cell_at-mask_results,
}
use mysql_mcp_server.Tools.Query.{
  RunQueryInput, Settings, cause_of, left_by_do, scan_failed, Plan, smaller_limit, effective_limit,
  plan_query, cause_of, run_plan, decorate, run_with_retries, tool_run_query,
}
use mysql_mcp_server.Tools.Query.Checked.{IsRewritten, plan_query-IsChecked}

left_by_do-eq-ok :
    (servers : ℕ → Server) (plan : Plan) (r : Option DbError × ℕ) (raw : QueryResult)
    → left_by_do servers plan r ≡ ok raw
    → (n : ℕ) × (run_plan servers plan n ≡ ok raw)
unfolding left_by_do
left_by_do-eq-ok servers plan (some e, n) raw h = absurd (cc)
left_by_do-eq-ok servers plan (none, n) raw h =
    (n, wrap-eq-ok scan_failed (run_plan servers plan n) h)

-- A result comes from a run of the plan, by way of the warning and the masking.
pub tool_run_query-eq-ok :
    (s : Settings) (servers : ℕ → Server) (input : RunQueryInput) (out : QueryResult)
    → tool_run_query s servers input ≡ ok out
    → (plan : Plan) × (n : ℕ) × (raw : QueryResult) × (plan_query s input ≡ ok plan)
      × (run_plan servers plan n ≡ ok raw)
      × (decorate s plan raw ≡ out)
unfolding tool_run_query run_with_retries
tool_run_query-eq-ok s servers input out h =
    let (plan, p, h1) = bind-eq-ok (plan_query s input) _ h in
    let (raw, r, h2) = bind-eq-ok (run_with_retries s servers plan) _ h1 in
    let (n, k) =
      left_by_do-eq-ok servers plan
        (do_retry (s.backoff) (s.retry) (s.context_error) (λ j. cause_of (run_plan servers plan j)))
        raw r in
    (plan, n, raw, p, k, ok-injective h2)

length-map : {A B : Type 0} (f : A → B) (xs : List A) → length (map f xs) ≡ length xs
length-map f [] = refl
length-map f (x ∷ xs) = ap suc (length-map f xs)

length-mask_results :
    (cols : List Bytes) (rows : List Row) (ps : List Bytes)
    → length (mask_results cols rows ps) ≡ length rows
length-mask_results cols rows ps =
    rw (mask_results_lem cols rows ps)
      (length-map (mask_row (map (is_masked (keep_parts ps)) cols)) rows)

effective_limit-le : (max_rows : ℕ) (asked : Option ℕ) → effective_limit max_rows asked ≤ max_rows
unfolding effective_limit smaller_limit
effective_limit-le max_rows none = ground arith
effective_limit-le max_rows (some n) = ground arith

abbrev pub hidden : Option Cell → Bool
hidden none = true
hidden (some null) = true
hidden (some (text s)) = equal s (codes "********")
hidden (some _) = false

hidden-mask_cell : (o : Option Cell) → hidden (map_option (mask_cell true) o) ≡ true
unfolding equal
hidden-mask_cell none = refl
hidden-mask_cell (some null) = refl
hidden-mask_cell (some (text s)) = refl
hidden-mask_cell (some (json s)) = refl

-- Whatever the database answers in each run, a result has at most `maxRows` rows, and at every
-- position of a column whose name has a pattern for masked columns in it there is nothing, a null or
-- the mask.
pub tool_run_query-hidden :
    (s : Settings) (servers : ℕ → Server) (input : RunQueryInput) (out : QueryResult)
    → tool_run_query s servers input ≡ ok out
    → (length (out.rows) ≤ s.max_rows)
      × ((j i : ℕ)
          → is_masked_at (s.mask_columns) (out.columns) i ≡ true
          → hidden (cell_at (out.rows) j i) ≡ true)
unfolding decorate run_plan
tool_run_query-hidden s servers input out h =
    let (plan, n, raw, p, r, d) = tool_run_query-eq-ok s servers input out h in
    let (_, _, _, _, l, _) = plan_query-IsChecked s input plan p in
    let (le, _, _, _) =
      run_query_scan-limit (servers n) (plan.final_sql) (plan.database) (plan.limit)
        (plan.paginated) (plan.page_offset) raw r in
    subst
      (λ (q : QueryResult).
        (length (q.rows) ≤ s.max_rows)
        × ((j i : ℕ)
            → is_masked_at (s.mask_columns) (q.columns) i ≡ true
            → hidden (cell_at (q.rows) j i) ≡ true))
      d
      (
        omega (
          arith,
          length-mask_results (raw.columns) (raw.rows) (s.mask_columns),
          l,
          le,
          effective_limit-le (s.max_rows) (input.max_rows),
        ),
        λ j i m.
            rw (cell_at-mask_results (raw.columns) (raw.rows) (s.mask_columns) j i, m)
              (hidden-mask_cell (cell_at (raw.rows) j i)),
      )

inject_limit-appends :
    (s : Settings) (input : RunQueryInput) (limit : ℕ) (stmt : Statement)
    → positive limit ≡ true
    → s.grammar.parse (trim_space (trim_space (input.sql))) ≡ some stmt
    → top_limit stmt ≡ some false
    → inject_limit (s.grammar) (trim_space (input.sql)) limit
      ≡ base (trim_space (trim_space (input.sql))) ++ (codes " LIMIT " ++ decimal limit)
unfolding inject_limit
inject_limit-appends s input limit stmt pos e d = rw (pos, e, d) refl

rewritten-none :
    (s : Settings) (input : RunQueryInput) (plan : Plan)
    → input.offset ≡ none
    → IsRewritten s input plan
    → plan.final_sql ≡ inject_limit (s.grammar) (trim_space (input.sql)) (plan.limit)
rewritten-none s input plan o (inl (_, f, _)) = f
rewritten-none s input plan o (inr (offset, e, _, _, _)) = absurd (let k = sym o ∙ e in cc)

-- A SELECT or a UNION without a LIMIT, run without an offset, is never reported as truncated, however
-- many rows there are: the LIMIT that is appended is the limit itself, so that a server that keeps to
-- it gives no row beyond. The effective limit is positive.
pub tool_run_query-not_truncated :
    (s : Settings) (servers : ℕ → Server) (input : RunQueryInput) (out : QueryResult)
    (stmt : Statement)
    → input.offset ≡ none
    → s.grammar.parse (trim_space (trim_space (input.sql))) ≡ some stmt
    → top_limit stmt ≡ some false
    → positive (effective_limit (s.max_rows) (input.max_rows)) ≡ true
    → ((n : ℕ) (selected : List Bytes) (cursor : Cursor)
        → (servers n).answer selected (
            base (trim_space (trim_space (input.sql)))
            ++ (codes " LIMIT " ++ decimal (effective_limit (s.max_rows) (input.max_rows))))
          ≡ ok cursor
        → length (cursor.scans) ≤ effective_limit (s.max_rows) (input.max_rows))
    → tool_run_query s servers input ≡ ok out
    → out.truncated ≡ false
unfolding decorate run_plan
tool_run_query-not_truncated s servers input out stmt o e d pos keeps h =
    let (plan, n, raw, p, r, f) = tool_run_query-eq-ok s servers input out h in
    let (_, _, _, _, l, w) = plan_query-IsChecked s input plan p in
    let t =
      rewritten-none s input plan o w
      ∙ ap (inject_limit (s.grammar) (trim_space (input.sql))) l
      ∙ inject_limit-appends s input (effective_limit (s.max_rows) (input.max_rows)) stmt pos e d in
    subst (λ (q : QueryResult). q.truncated ≡ false) f
      (run_query_scan-short (servers n) (plan.final_sql) (plan.database) (plan.limit)
        (plan.paginated) (plan.page_offset) raw
        (λ selected cursor a.
          subst (λ k. length (cursor.scans) ≤ k) (sym l)
            (keeps n selected cursor (subst (λ q. (servers n).answer selected q ≡ ok cursor) t a)))
        r)
