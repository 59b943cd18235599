-- ===== src/Tools/Query/Checked.antt =====
-- What `toolRunQuery` of cmd/mysql-mcp-server/tools.go has checked before it asks the database.
use mysql_mcp_server.Prelude.{
  ◌≡◌, refl, sym, subst, ◌⊎◌, inl, inr, ℕ, ◌+◌, ◌%◌, true, false, [], Option, none, some, Bytes,
  arith, equal, trim_space, leb, if◌then◌else◌, Bool-cases, ok, err, wrap, wrap-eq-ok, bind-eq-ok,
  ok-injective, guard-eq-ok, unless-eq,
}
use mysql_mcp_server.Config.Env.{half, word}
use mysql_mcp_server.Access.{
  Names, access_control_enabled, database_allowed, require_allowed_database,
  require_referenced_schemas,
}
use mysql_mcp_server.Parser.Validate.{validate_sql_combined}
use mysql_mcp_server.Parser.Schemas.{reading_of}
use mysql_mcp_server.Parser.Limit.{inject_limit, inject_limit_with_offset}
use mysql_mcp_server.Tools.Scan.{check}
use mysql_mcp_server.Tools.Query.{
  RunQueryInput, Settings, database_required, negative_offset, no_row_limit, not_valid, not_allowed,
  not_paginated, Plan, check_database, effective_limit, plan_text, plan_query,
}

pub check-eq-ok :
    {E F : Type 0} (f : E → F) (o : Option E) {u : Unit {0}} → check f o ≡ ok u → o ≡ none
check-eq-ok f none h = refl
check-eq-ok f (some e) h = absurd (cc)

pub require-none :
    (set : Names) (db : Bytes)
    → access_control_enabled set ≡ true
    → require_allowed_database set db ≡ none
    → database_allowed set db ≡ true
unfolding require_allowed_database database_allowed
require-none set db on h = ground arith

-- The database is allowed, when there is an allow list.
check_database-eq-ok :
    (s : Settings) (database : Bytes) (u : Unit {0})
    → check_database s database ≡ ok u
    → access_control_enabled (s.allowed_databases) ≡ true
    → database_allowed (s.allowed_databases) database ≡ true
unfolding check_database
check_database-eq-ok s database u h on =
    let checked = check not_allowed (require_allowed_database (s.allowed_databases) database) in
    let k =
      unless-eq (access_control_enabled (s.allowed_databases)) (ok tt)
        (if equal database [] then err database_required else checked) on h in
    let (_, l) = guard-eq-ok (equal database []) database_required checked k in
    require-none (s.allowed_databases) database on
      (check-eq-ok not_allowed (require_allowed_database (s.allowed_databases) database) l)

-- The text that is sent is made of the trimmed input by one of the two ways to append a LIMIT.
abbrev pub IsRewritten : Settings → RunQueryInput → Plan → Type 0
IsRewritten s input plan =
    ((input.offset ≡ none)
      × (plan.final_sql ≡ inject_limit (s.grammar) (trim_space (input.sql)) (plan.limit))
      × (plan.paginated ≡ false))
    ⊎ ((offset : ℕ) × (input.offset ≡ some offset)
        × (plan.page_offset ≡ offset)
        × (inject_limit_with_offset (s.grammar) (trim_space (input.sql)) ((plan.limit + 1) % word)
              offset
            ≡ ok (plan.final_sql))
        × (plan.paginated ≡ true))

abbrev pub IsChecked : Settings → RunQueryInput → Plan → Type 0
IsChecked s input plan =
    (validate_sql_combined (s.grammar) (s.allow_system_schemas) (trim_space (input.sql)) ≡ none)
    × (require_referenced_schemas (reading_of (s.grammar)) (s.allowed_databases)
          (trim_space (input.sql))
        ≡ none)
    × (access_control_enabled (s.allowed_databases) ≡ true
        → database_allowed (s.allowed_databases) (plan.database) ≡ true)
    × (plan.database ≡ trim_space (input.database))
    × (plan.limit ≡ effective_limit (s.max_rows) (input.max_rows))
    × IsRewritten s input plan

abbrev IsPlanned : Settings → RunQueryInput → Bytes → ℕ → Plan → Type 0
IsPlanned s input database limit plan =
    (plan.database ≡ database) × (plan.limit ≡ limit) × IsRewritten s input plan

plan_text-eq-ok :
    (s : Settings) (input : RunQueryInput) (database : Bytes) (limit : ℕ) (plan : Plan)
    (o : Option ℕ)
    → input.offset ≡ o
    → plan_text s (trim_space (input.sql)) database limit o ≡ ok plan
    → IsPlanned s input database limit plan
unfolding plan_text
plan_text-eq-ok s input database limit plan none e h =
    subst (IsPlanned s input database limit) (ok-injective h) (refl, refl, inl (e, refl, refl))
plan_text-eq-ok s input database limit plan (some offset) e h =
    let (_, k) = guard-eq-ok (leb half offset) negative_offset _ h in
    let (_, l) = guard-eq-ok (leb limit 0) no_row_limit _ k in
    let (final_sql, w, m) =
      bind-eq-ok
        (wrap not_paginated (
          inject_limit_with_offset (s.grammar) (trim_space (input.sql)) ((limit + 1) % word)
            offset))
        _ l in
    subst (IsPlanned s input database limit) (ok-injective m)
      (refl, refl, inr (offset, e, refl, wrap-eq-ok not_paginated _ w, refl))

pub plan_query-IsChecked :
    (s : Settings) (input : RunQueryInput) (plan : Plan)
    → plan_query s input ≡ ok plan
    → IsChecked s input plan
unfolding plan_query
plan_query-IsChecked s input plan h = elim (Bool-cases (equal (trim_space (input.sql)) [])) [
  | inl e ↦ absurd (let k = rw e at h in cc)
  | inr e ↦
      let (u, d, h1) = bind-eq-ok (check_database s (trim_space (input.database))) _ (rw e at h) in
      let (_, v, h2) =
        bind-eq-ok
          (check not_valid
            (validate_sql_combined (s.grammar) (s.allow_system_schemas) (trim_space (input.sql))))
          _ h1 in
      let (_, r, h3) =
        bind-eq-ok
          (check not_allowed (
            require_referenced_schemas (reading_of (s.grammar)) (s.allowed_databases)
              (trim_space (input.sql))))
          _ h2 in
      let (db, l, w) =
        plan_text-eq-ok s input (trim_space (input.database))
          (effective_limit (s.max_rows) (input.max_rows)) plan (input.offset) refl h3 in
      (
        check-eq-ok not_valid _ v,
        check-eq-ok not_allowed _ r,
        (λ on.
            subst (λ q. database_allowed (s.allowed_databases) q ≡ true) (sym db)
              (check_database-eq-ok s (trim_space (input.database)) u d on)),
        db,
        l,
        w,
      )
]
