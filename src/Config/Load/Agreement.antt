-- ===== src/Config/Load/Agreement.antt =====
-- `ValidateConfigFile` against `Load` on the same file and environment.
use mysql_mcp_server.Prelude.{
  ◌≡◌, ◌↔◌, ◌∙◌, ap, subst, refl, Bool, true, false, not, List, [], equal, any, inl, inr,
  Result-cases, Result, ok, ◌>>=◌, bind-eq-ok,
}
use mysql_mcp_server.Config.Types.{Host, Config, ConnectionConfig}
use mysql_mcp_server.Config.Connections.{load_connections}
use mysql_mcp_server.Config.File.{FileConfig, to_config}
use mysql_mcp_server.Config.Transport.{ConfigError, empty_dsn, resolve_mcp_http_token}
use mysql_mcp_server.Config.Transport.Token.{resolve-ok}
use mysql_mcp_server.Config.Load.{
  decoded, load, finish, finish_validation, validate_config_file, checked_connections, accepted,
  require, overridden, with_connections,
}
use mysql_mcp_server.Config.Load.Sound.{accepted-ok}

abbrev pub some_empty_dsn : List ConnectionConfig → Bool
some_empty_dsn cs = any (λ x. equal x.dsn []) cs

settled : Host → Config → Result ConfigError Config
settled h c = resolve_mcp_http_token h c >>= accepted h

settled-connections :
    (h : Host) (c : Config) {c' : Config} → settled h c ≡ ok c' → c'.connections ≡ c.connections
unfolding settled
settled-connections h c e =
    let (c2, q, e2) = bind-eq-ok (resolve_mcp_http_token h c) (accepted h) e in
    subst (λ x. x.connections ≡ c.connections) (accepted-ok h c2 e2).0
      (resolve-ok h c q).connections

settled-dsn :
    (h : Host) (c : Config) (b : Bool) {c' : Config}
    → some_empty_dsn c.connections ≡ b
    → settled h c ≡ ok c'
    → some_empty_dsn c'.connections ≡ b
settled-dsn h c b f e = ap some_empty_dsn (settled-connections h c e) ∙ f

-- behind the check of the names
rest-agrees :
    (h : Host) (c : Config) (b : Bool) {c' : Config}
    → some_empty_dsn c.connections ≡ b
    → ((require (not b) empty_dsn c >>= settled h) ≡ ok c')
      ↔ ((settled h c ≡ ok c') × (some_empty_dsn c'.connections ≡ false))
rest-agrees h c false f = (λ e. (e, settled-dsn h c false f e), λ p. p.0)
rest-agrees h c true {c' = c'} f = (
  λ e. absurd (cc),
  λ p. absurd (let k = settled-dsn h c true {c' = c'} f p.0 in let l = p.1 in cc),
)

finish-agrees :
    (h : Host) (c : Config) {c' : Config}
    → (finish_validation h c ≡ ok c')
      ↔ ((finish h c ≡ ok c') × (some_empty_dsn c'.connections ≡ false))
unfolding finish_validation finish settled
finish-agrees h c {c' = c'} = elim (Result-cases (checked_connections c)) [
  | inl (c1, f) ↦ rw f (rest-agrees h c1 (some_empty_dsn c1.connections) refl)
  | inr (x, f) ↦ rw f (λ e. absurd (cc), λ p. absurd (let l = p.0 in cc))
]

-- `ValidateConfigFile` accepts a file exactly if `Load` accepts it, in the same environment, and none
-- of the connections that `Load` returns has an empty DSN.
pub validate_config_file-load :
    (h : Host) (fc : FileConfig) {c : Config}
    → (validate_config_file h fc ≡ ok c)
      ↔ ((load h (decoded fc) ≡ ok c) × (some_empty_dsn c.connections ≡ false))
unfolding validate_config_file load
validate_config_file-load h fc {c = c} = elim (Result-cases (load_connections h)) [
  | inl (cs, f) ↦ rw f (finish-agrees h (with_connections cs (overridden h (to_config h fc))))
  | inr (x, f) ↦ rw f (λ e. absurd (cc), λ p. absurd (let l = p.0 in cc))
]
