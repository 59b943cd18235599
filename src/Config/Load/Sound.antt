-- ===== src/Config/Load/Sound.antt =====
-- What holds of a configuration that `Load` returns.
use mysql_mcp_server.Prelude.{
  ◌≡◌, ◌≢◌, ◌∙◌, ap, subst, refl, inl, inr, true, false, not, ◌&&◌, List, [], ◌∷◌, none, arith,
  Bool-cases, Result, ok, err, ◌>>=◌, bind-eq-ok, ok-injective,
}
use mysql_mcp_server.Config.Types.{Host, Config, ConnectionConfig}
use mysql_mcp_server.Config.Overrides.{apply_env_overrides, override_features}
use mysql_mcp_server.Config.Connections.{load_connections}
use mysql_mcp_server.Config.Transport.{
  ConfigError, no_connections, reserved_name, apply_mcp_http_defaults, resolve_mcp_http_token,
  validate_tool_pack, validate_transport, validate_connection_names,
}
use mysql_mcp_server.Config.Transport.Token.{resolve-ok}
use mysql_mcp_server.Config.Transport.Safe.{IsSafe, validate_transport_iff}
use mysql_mcp_server.Config.Load.{
  Found, load, based, finish, checked_connections, accepted, is_empty, overridden, with_connections,
}

pub checked-ok :
    (c : Config) {c' : Config}
    → checked_connections c ≡ ok c'
    → (c ≡ c') × (is_empty c.connections ≡ false) × (validate_connection_names c.connections ≡ true)
checked-ok c e = elim (Bool-cases (is_empty c.connections)) [
  | inl f ↦
      absurd
        (let g : ◌≡◌ {A = Result ConfigError Config} (err no_connections) (ok _) = rw f at e in cc)
  | inr f ↦ elim (Bool-cases (validate_connection_names c.connections)) [
    | inl k ↦ (ok-injective (rw k at (rw f at e)), f, k)
    | inr k ↦ absurd (
        let g : ◌≡◌ {A = Result ConfigError Config} (err reserved_name) (ok _) =
          rw k at (rw f at e) in
        cc)
  ]
]

pub accepted-ok :
    (h : Host) (c : Config) {c' : Config}
    → accepted h c ≡ ok c'
    → (c ≡ c') × (validate_transport h c ≡ none) × (validate_tool_pack c.features.tool_pack ≡ true)
accepted-ok h c e = ground arith

features_exclusive :
    (h : Host) (c : Config)
    → ((overridden h c).features.http_mode && (overridden h c).features.metrics_http) ≡ false
unfolding apply_mcp_http_defaults apply_env_overrides override_features
features_exclusive h c = ground arith

-- What `Load` guarantees.
pub record IsLoaded (h : Host) (c : Config) : Type 0 where
  pub some_connection : c.connections ≢ []
  pub not_reserved : validate_connection_names c.connections ≡ true
  pub tool_pack : validate_tool_pack c.features.tool_pack ≡ true
  pub safe : IsSafe h c
  pub one_server : (c.features.http_mode && c.features.metrics_http) ≡ false

is_empty-not : {A : Type 0} (xs : List A) → not (is_empty xs) ≡ true → xs ≢ []
is_empty-not xs e f = ground arith

finish-IsLoaded :
    (h : Host) (c : Config) {c' : Config}
    → (c.features.http_mode && c.features.metrics_http) ≡ false
    → finish h c ≡ ok c'
    → IsLoaded h c'
unfolding finish
finish-IsLoaded h c f e =
    let (c1, p, e1) =
      bind-eq-ok (checked_connections c) (λ c1. resolve_mcp_http_token h c1 >>= accepted h) e in
    let (c2, q, e2) = bind-eq-ok (resolve_mcp_http_token h c1) (accepted h) e1 in
    let (g, n, r) = checked-ok c p in
    let (d, v, k) = accepted-ok h c2 e2 in
    let t = resolve-ok h c1 q in
    let same : c2.connections ≡ c.connections = t.connections ∙ rw g refl in
    subst (IsLoaded h) d (record {
      some_connection = rw same (is_empty-not c.connections (ap not n));
      not_reserved = rw same r;
      tool_pack = k;
      safe = (validate_transport_iff h c2).0 v;
      one_server = rw (t.features) (rw (← g) f);
    })

with_connections-features :
    (cs : List ConnectionConfig) (c : Config) → (with_connections cs c).features ≡ c.features
with_connections-features [] c = refl
with_connections-features (x ∷ cs) c = refl

-- A configuration that `Load` returns has a connection, no connection with a name that is reserved for
-- the sessions, a valid tool pack mode, safe settings of the transport, and does not ask for both the
-- REST API and the metrics-only listener.
pub load-IsLoaded : (h : Host) (f : Found) {c : Config} → load h f ≡ ok c → IsLoaded h c
unfolding load
load-IsLoaded h f e =
    let (b, p, e1) =
      bind-eq-ok (based h f)
        (λ c. load_connections h >>= λ cs. finish h (with_connections cs (overridden h c))) e in
    let (cs, q, e2) =
      bind-eq-ok (load_connections h) (λ cs. finish h (with_connections cs (overridden h b))) e1 in
    finish-IsLoaded h (with_connections cs (overridden h b))
      (rw (with_connections-features cs (overridden h b)) (features_exclusive h b)) e2
