-- ===== src/Config/Load/Positive.antt =====
-- The limits of a configuration that `Load` returns are above zero.
use mysql_mcp_server.Prelude.{
  ℕ, ◌≤◌, ◌≡◌, refl, subst, true, List, [], ◌∷◌, arith, Bytes, codes, leb, ok, ◌>>=◌, bind-eq-ok,
  ok-injective,
}
use mysql_mcp_server.Config.Types.{Host, Config, ConnectionConfig}
use mysql_mcp_server.Config.Env.{positive}
use mysql_mcp_server.Config.Env.Numbers.{get_env_int_cases}
use mysql_mcp_server.Config.Overrides.{
  apply_env_overrides, override_limits, override_pool, override_http, int_or, checked,
}
use mysql_mcp_server.Config.Connections.{load_connections}
use mysql_mcp_server.Config.Transport.{apply_mcp_http_defaults, resolve_mcp_http_token}
use mysql_mcp_server.Config.Transport.Token.{SameButToken, resolve-ok}
use mysql_mcp_server.Config.File.{FileConfig, default_config, to_config, file_http}
use mysql_mcp_server.Config.Load.{
  Found, no_file, unreadable, decoded, load, based, finish, checked_connections, accepted,
  overridden, with_connections,
}
use mysql_mcp_server.Config.Load.Sound.{checked-ok, accepted-ok}

-- The limits that make no sense at zero, and the number of retries.
pub record IsPositive (c : Config) : Type 0 where
  pub max_rows : positive c.limits.max_rows ≡ true
  pub max_open_conns : positive c.pool.max_open_conns ≡ true
  pub max_idle_conns : positive c.pool.max_idle_conns ≡ true
  pub http_port : positive c.http.http_port ≡ true
  pub retries : c.limits.db_retry_max_retries ≤ 20

default_config-IsPositive : (h : Host) → IsPositive (default_config h)
unfolding default_config
default_config-IsPositive h = record {
  max_rows = refl;
  max_open_conns = refl;
  max_idle_conns = refl;
  http_port = refl;
  retries = omega arith;
}

to_config-IsPositive : (h : Host) (fc : FileConfig) → IsPositive (to_config h fc)
unfolding to_config default_config file_http
to_config-IsPositive h fc = record {
  max_rows = ground arith;
  max_open_conns = ground arith;
  max_idle_conns = ground arith;
  http_port = ground arith;
  retries = omega arith;
}

int_or-positive :
    (h : Host) (key : Bytes) (old : ℕ) → positive old ≡ true → positive (int_or h key old) ≡ true
unfolding int_or
int_or-positive h key old p = ground (arith, get_env_int_cases h key old)

retries-le :
    (h : Host) (key : Bytes) (old : ℕ) → old ≤ 20 → checked (λ n. leb n 20) (λ n. n) h key old ≤ 20
unfolding checked
retries-le h key old l = ground arith

overridden-IsPositive : (h : Host) (c : Config) → IsPositive c → IsPositive (overridden h c)
unfolding apply_mcp_http_defaults apply_env_overrides override_limits override_pool override_http
overridden-IsPositive h c v = record {
  max_rows = int_or-positive h _ c.limits.max_rows v.max_rows;
  max_open_conns = ground (
    arith,
    v.max_open_conns,
    int_or-positive h (codes "MYSQL_MAX_OPEN_CONNS") c.pool.max_open_conns,
    int_or-positive h (codes "MYSQL_POOL_SIZE") c.pool.max_open_conns,
  );
  max_idle_conns = int_or-positive h _ c.pool.max_idle_conns v.max_idle_conns;
  http_port = int_or-positive h _ c.http.http_port v.http_port;
  retries = retries-le h _ c.limits.db_retry_max_retries v.retries;
}

with_connections-IsPositive :
    (cs : List ConnectionConfig) (c : Config) → IsPositive c → IsPositive (with_connections cs c)
with_connections-IsPositive [] c v = v
with_connections-IsPositive (x ∷ cs) c v = record {
  max_rows = v.max_rows;
  max_open_conns = v.max_open_conns;
  max_idle_conns = v.max_idle_conns;
  http_port = v.http_port;
  retries = v.retries;
}

same-IsPositive : {c c' : Config} → SameButToken c c' → IsPositive c → IsPositive c'
same-IsPositive t v = record {
  max_rows = rw t.limits v.max_rows;
  max_open_conns = rw t.pool v.max_open_conns;
  max_idle_conns = rw t.pool v.max_idle_conns;
  http_port = rw t.http v.http_port;
  retries = rw t.limits v.retries;
}

finish-IsPositive :
    (h : Host) (c : Config) {c' : Config} → IsPositive c → finish h c ≡ ok c' → IsPositive c'
unfolding finish
finish-IsPositive h c v e =
    let (c1, p, e1) =
      bind-eq-ok (checked_connections c) (λ c1. resolve_mcp_http_token h c1 >>= accepted h) e in
    let (c2, q, e2) = bind-eq-ok (resolve_mcp_http_token h c1) (accepted h) e1 in
    subst IsPositive (accepted-ok h c2 e2).0
      (same-IsPositive (resolve-ok h c1 q) (subst IsPositive (checked-ok c p).0 v))

based-IsPositive : (h : Host) (f : Found) {c : Config} → based h f ≡ ok c → IsPositive c
based-IsPositive h no_file e = subst IsPositive (ok-injective e) (default_config-IsPositive h)
based-IsPositive h unreadable e = absurd (cc)
based-IsPositive h (decoded fc) e = subst IsPositive (ok-injective e) (to_config-IsPositive h fc)

-- Whatever numbers the file and the environment hold, in a configuration that `Load` returns the row
-- limit, the two pool sizes and the port are above zero and below 2 ^ 63, and at most 20 retries are
-- made.
pub load-IsPositive : (h : Host) (f : Found) {c : Config} → load h f ≡ ok c → IsPositive c
unfolding load
load-IsPositive h f e =
    let (b, p, e1) =
      bind-eq-ok (based h f)
        (λ c. load_connections h >>= λ cs. finish h (with_connections cs (overridden h c))) e in
    let (cs, q, e2) =
      bind-eq-ok (load_connections h) (λ cs. finish h (with_connections cs (overridden h b))) e1 in
    finish-IsPositive h (with_connections cs (overridden h b))
      (with_connections-IsPositive cs (overridden h b)
        (overridden-IsPositive h b (based-IsPositive h f p)))
      e2
