-- ===== src/Config/Overrides/Precedence.antt =====
-- Without variables the file's configuration stays.
use mysql_mcp_server.Prelude.{
  ◌≡◌, sym, subst, trim_left, trim_right, true, false, not, ◌&&◌, [], arith, Bytes, equal,
  trim_space, if◌then◌else◌,
}
use mysql_mcp_server.Config.Types.{Host, Config, Features}
use mysql_mcp_server.Config.Overrides.{
  apply_env_overrides, override_limits, override_pool, override_features, override_http,
  override_mcp, override_security, int_or, bool_or, text_or, list_or, duration_or, checked,
  token_card_default,
}

-- What stays of the features: the REST API replaces the metrics-only listener, which brings /status.
abbrev pub settled_features : Features → Features
settled_features c = record c {
  metrics_http = if c.http_mode then false else c.metrics_http;
  token_card = if c.metrics_http && not c.http_mode then true else c.token_card;
}

no_variables : Host → Host
no_variables h = record h { getenv = λ key. [] }

no_variables-overrides :
    (h : Host) (c : Config)
    → apply_env_overrides (no_variables h) c ≡ record c { features = settled_features c.features }
unfolding no_variables apply_env_overrides override_limits override_pool override_features
    override_http override_mcp override_security int_or bool_or text_or list_or duration_or checked
    token_card_default trim_space trim_left trim_right equal
no_variables-overrides h c = ground arith

no_variables_lem : (h : Host) → ((key : Bytes) → h.getenv key ≡ []) → no_variables h ≡ h
unfolding no_variables
no_variables_lem h e = λ i. record h { getenv = λ key. sym (e key) i }

-- With no variable set, the overrides leave every field as it was, but for the metrics-only listener,
-- which the REST API turns off and which otherwise turns on /status.
pub apply_env_overrides_unset :
    (h : Host) (c : Config)
    → ((key : Bytes) → h.getenv key ≡ [])
    → apply_env_overrides h c ≡ record c { features = settled_features c.features }
apply_env_overrides_unset h c e =
    subst (λ g. apply_env_overrides g c ≡ record c { features = settled_features c.features })
      (no_variables_lem h e) (no_variables-overrides h c)
