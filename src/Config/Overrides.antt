-- ===== src/Config/Overrides.antt =====
-- internal/config/config.go: `applyEnvOverrides`, group by group of the fields. Each field takes the
-- value of its variable where that is set.
pub mod Precedence
use mysql_mcp_server.Prelude.{
  ℕ, Bool, true, false, not, ◌&&◌, ◌||◌, List, [], ◌∷◌, ◌++◌, Option, none, some, Bytes, codes,
  equal, to_lower, trim_space, has_prefix, ltb, leb, contains, contains_any, ◌==◌, if◌then◌else◌,
  ◌*◌,
}
use mysql_mcp_server.Config.Types.{
  Host, Url, Ip, Config, Limits, Pool, Features, Http, McpHttp, Security,
}
use mysql_mcp_server.Config.Env.{
  millisecond, second, minute, positive, duration, whole, atoi, get_env_int, get_env_bool,
  parse_csv_list,
}

abbrev pub is_set : Host → Bytes → Bool
is_set h key = not (equal (h.getenv key) [])

-- `if v := os.Getenv(key); v != "" { field = ... }` for an `int`, a `bool`, a text, a list, a duration
unfoldable pub int_or : Host → Bytes → ℕ → ℕ
unfolding equal get_env_int
int_or h key old = if is_set h key then get_env_int h key old else old

unfoldable pub bool_or : Host → Bytes → Bool → Bool
unfolding equal get_env_bool
bool_or h key old = if is_set h key then get_env_bool h key else old

unfoldable pub text_or : Host → Bytes → Bytes → Bytes
unfolding equal trim_space
text_or h key old = if is_set h key then trim_space (h.getenv key) else old

unfoldable pub list_or : Host → Bytes → List Bytes → List Bytes
unfolding equal parse_csv_list
list_or h key old = if is_set h key then parse_csv_list (h.getenv key) else old

unfoldable pub duration_or : Host → Bytes → ℕ → ℕ → ℕ
unfolding equal get_env_int
duration_or h key unit old =
    if is_set h key then duration (get_env_int h key (whole old unit)) unit else old

-- the number of a variable that passes a test
unfoldable pub checked : (ℕ → Bool) → (ℕ → ℕ) → Host → Bytes → ℕ → ℕ
unfolding equal trim_space atoi
checked p f h key old =
    let v = trim_space (h.getenv key) in
    if equal v [] then old else elim (atoi v) [ none ↦ old | some n ↦ if p n then f n else old ]

unfoldable pub override_limits : Host → Limits → Limits
unfolding int_or duration_or list_or checked
override_limits h c = record {
  max_rows = int_or h (codes "MYSQL_MAX_ROWS") c.max_rows;
  query_timeout =
      if is_set h (codes "MYSQL_QUERY_TIMEOUT_SECONDS")
      then duration_or h (codes "MYSQL_QUERY_TIMEOUT_SECONDS") second c.query_timeout
      else duration_or h (codes "MYSQL_QUERY_TIMEOUT") millisecond c.query_timeout;
  db_retry_max_retries =
      checked (λ n. leb n 20) (λ n. n) h (codes "MYSQL_MCP_DB_RETRY_MAX") c.db_retry_max_retries;
  db_retry_max_interval =
      checked positive (λ n. duration n millisecond) h (codes "MYSQL_MCP_DB_RETRY_MAX_INTERVAL_MS")
        c.db_retry_max_interval;
  mask_columns = list_or h (codes "MYSQL_MCP_MASK_COLUMNS") c.mask_columns;
}

unfoldable pub override_pool : Host → Pool → Pool
unfolding int_or duration_or
override_pool h c = record {
  max_open_conns =
      if is_set h (codes "MYSQL_MAX_OPEN_CONNS")
      then int_or h (codes "MYSQL_MAX_OPEN_CONNS") c.max_open_conns
      else int_or h (codes "MYSQL_POOL_SIZE") c.max_open_conns;
  max_idle_conns = int_or h (codes "MYSQL_MAX_IDLE_CONNS") c.max_idle_conns;
  conn_max_lifetime =
      duration_or h (codes "MYSQL_CONN_MAX_LIFETIME_MINUTES") minute c.conn_max_lifetime;
  conn_max_idle_time =
      duration_or h (codes "MYSQL_CONN_MAX_IDLE_TIME_MINUTES") minute c.conn_max_idle_time;
  ping_timeout = duration_or h (codes "MYSQL_PING_TIMEOUT_SECONDS") second c.ping_timeout;
}

-- /status is served by default over HTTP when the environment does not say
token_card_default : Host → Bool → Bool → Bool → Bool
unfolding equal trim_space
token_card_default h http metrics card =
    if not (is_set h (codes "MYSQL_MCP_TOKEN_CARD"))
      && ((http && not (equal (trim_space (h.getenv (codes "MYSQL_MCP_HTTP"))) []))
          || (metrics && not http))
    then true
    else card

unfoldable pub override_features : Host → Features → Features
unfolding bool_or text_or token_card_default to_lower trim_space
override_features h c =
    let http = bool_or h (codes "MYSQL_MCP_HTTP") c.http_mode in
    let metrics = bool_or h (codes "MYSQL_MCP_METRICS_HTTP") c.metrics_http in
    let pack = trim_space (h.getenv (codes "MYSQL_MCP_TOOL_PACK")) in
    record {
      extended_mode = bool_or h (codes "MYSQL_MCP_EXTENDED") c.extended_mode;
      vector_mode = bool_or h (codes "MYSQL_MCP_VECTOR") c.vector_mode;
      tool_pack = if equal pack [] then c.tool_pack else to_lower pack;
      statement_labels = bool_or h (codes "MYSQL_MCP_STATEMENT_LABELS") c.statement_labels;
      http_mode = http;
      metrics_http = if http then false else metrics;
      json_logging = bool_or h (codes "MYSQL_MCP_JSON_LOGS") c.json_logging;
      token_card =
          token_card_default h http metrics (bool_or h (codes "MYSQL_MCP_TOKEN_CARD") c.token_card);
      token_tracking = bool_or h (codes "MYSQL_MCP_TOKEN_TRACKING") c.token_tracking;
      token_model = text_or h (codes "MYSQL_MCP_TOKEN_MODEL") c.token_model;
      audit_log_path = text_or h (codes "MYSQL_MCP_AUDIT_LOG") c.audit_log_path;
    }

unfoldable pub override_http : Host → Http → Http
unfolding int_or duration_or bool_or get_env_int
override_http h c = record {
  http_port = int_or h (codes "MYSQL_HTTP_PORT") c.http_port;
  http_request_timeout =
      duration_or h (codes "MYSQL_HTTP_REQUEST_TIMEOUT_SECONDS") second c.http_request_timeout;
  rate_limit_enabled = bool_or h (codes "MYSQL_HTTP_RATE_LIMIT") c.rate_limit_enabled;
  rate_limit_rps =
      if is_set h (codes "MYSQL_HTTP_RATE_LIMIT_RPS")
      then h.float_of_int
          (get_env_int h (codes "MYSQL_HTTP_RATE_LIMIT_RPS") (h.int_of_float c.rate_limit_rps))
      else c.rate_limit_rps;
  rate_limit_burst = int_or h (codes "MYSQL_HTTP_RATE_LIMIT_BURST") c.rate_limit_burst;
}

unfoldable pub override_mcp : Host → McpHttp → McpHttp
unfolding text_or bool_or duration_or list_or
override_mcp h c = record {
  bind = text_or h (codes "MYSQL_MCP_HTTP_BIND") c.bind;
  path = text_or h (codes "MYSQL_MCP_HTTP_PATH") c.path;
  token = text_or h (codes "MYSQL_MCP_HTTP_TOKEN") c.token;
  token_file = text_or h (codes "MYSQL_MCP_HTTP_TOKEN_FILE") c.token_file;
  tls_cert = text_or h (codes "MYSQL_MCP_HTTP_TLS_CERT") c.tls_cert;
  tls_key = text_or h (codes "MYSQL_MCP_HTTP_TLS_KEY") c.tls_key;
  stateless = bool_or h (codes "MYSQL_MCP_HTTP_STATELESS") c.stateless;
  session_timeout =
      duration_or h (codes "MYSQL_MCP_HTTP_SESSION_TIMEOUT_MINUTES") minute c.session_timeout;
  allowed_origins = list_or h (codes "MYSQL_MCP_HTTP_ALLOWED_ORIGINS") c.allowed_origins;
  allowed_hosts = list_or h (codes "MYSQL_MCP_HTTP_ALLOWED_HOSTS") c.allowed_hosts;
  allow_insecure = bool_or h (codes "MYSQL_MCP_HTTP_ALLOW_INSECURE") c.allow_insecure;
}

unfoldable pub override_security : Host → Security → Security
unfolding bool_or list_or
override_security h c = record {
  allowed_databases = list_or h (codes "MYSQL_MCP_ALLOWED_DATABASES") c.allowed_databases;
  strict_read_only = bool_or h (codes "MYSQL_MCP_STRICT_READ_ONLY") c.strict_read_only;
  allow_system_schemas = bool_or h (codes "MYSQL_MCP_ALLOW_SYSTEM_SCHEMAS") c.allow_system_schemas;
  process_admin = bool_or h (codes "MYSQL_MCP_PROCESS_ADMIN") c.process_admin;
  read_audit_tool = bool_or h (codes "MYSQL_MCP_READ_AUDIT_TOOL") c.read_audit_tool;
  slow_query_tool = bool_or h (codes "MYSQL_MCP_SLOW_QUERY_TOOL") c.slow_query_tool;
}

-- `applyEnvOverrides`
unfoldable pub apply_env_overrides : Host → Config → Config
unfolding override_limits override_pool override_features override_http override_mcp
    override_security
apply_env_overrides h c = record {
  connections = c.connections;
  limits = override_limits h c.limits;
  pool = override_pool h c.pool;
  features = override_features h c.features;
  http = override_http h c.http;
  transport =
      if is_set h (codes "MYSQL_MCP_TRANSPORT")
      then to_lower (trim_space (h.getenv (codes "MYSQL_MCP_TRANSPORT")))
      else c.transport;
  mcp = override_mcp h c.mcp;
  security = override_security h c.security;
}
