-- ===== src/Config/File.antt =====
-- internal/config/file.go: the configuration file, decoded, and its conversion by `ToConfig`.
use mysql_mcp_server.Prelude.{
  ℕ, Bool, true, false, ◌&&◌, ◌||◌, List, [], ◌∷◌, map, Option, none, some, Bytes, codes, equal,
  to_lower, trim_space, ltb, ◌==◌, if◌then◌else◌,
}
use mysql_mcp_server.Config.Types.{
  Host, SshConfig, ConnectionConfig, Config, Http, McpHttp, Security,
}
use mysql_mcp_server.Config.Env.{positive, duration, second, minute, keep_parts}

-- `FileConnectionConfig`, with its key in the map
pub record FileConnection : Type 0 where
  pub name : Bytes
  pub dsn : Bytes
  pub description : Bytes
  pub read_only : Bool
  pub ssl : Bytes
  pub ssh : Option SshConfig

pub record FileRateLimit : Type 0 where
  pub enabled : Option Bool
  pub rps : Option ℕ
  pub burst : Option ℕ

pub record FileMcpHttp : Type 0 where
  pub bind : Bytes
  pub path : Bytes
  pub token_file : Bytes
  pub tls_cert : Bytes
  pub tls_key : Bytes
  pub stateless : Bool
  pub session_timeout_minutes : ℕ
  pub allowed_origins : List Bytes
  pub allowed_hosts : List Bytes
  pub allow_insecure : Bool

-- `FileConfig`; the fields of its sections `query`, `pool`, `features`, `logging` and `http` stand
-- side by side
pub record FileConfig : Type 0 where
  pub connections : List FileConnection
  pub max_rows : ℕ
  pub timeout_seconds : ℕ
  pub mask_columns : List Bytes
  pub max_open_conns : ℕ
  pub max_idle_conns : ℕ
  pub conn_max_lifetime_minutes : ℕ
  pub conn_max_idle_time_minutes : ℕ
  pub ping_timeout_seconds : ℕ
  pub extended_tools : Bool
  pub vector_tools : Bool
  pub token_card : Bool
  pub tool_pack : Bytes
  pub statement_labels : Option Bool
  pub security : Security
  pub json_format : Bool
  pub audit_log_path : Bytes
  pub token_tracking : Bool
  pub token_model : Bytes
  pub transport : Bytes
  pub enabled : Bool
  pub port : ℕ
  pub request_timeout_seconds : ℕ
  pub rate_limit : Option FileRateLimit
  pub mcp : Option FileMcpHttp

abbrev pub or_default : {A : Type 0} → Option A → A → A
or_default none def = def
or_default (some a) def = a

-- `strings.Compare`: whether a text stands in front of another
unfoldable pub before : Bytes → Bytes → Bool
before [] [] = false
before [] (y ∷ t) = true
before (x ∷ s) [] = false
before (x ∷ s) (y ∷ t) = let rest = before s t in ltb x y || (x == y && rest)

-- `sort.Strings` of the names, and "default" moved to the front
unfoldable pub in_front : FileConnection → FileConnection → Bool
unfolding equal before
in_front a b =
    if equal a.name (codes "default")
    then true
    else if equal b.name (codes "default")
    then false
    else before a.name b.name

unfoldable pub place : FileConnection → List FileConnection → List FileConnection
unfolding in_front
place a [] = a ∷ []
place a (b ∷ bs) = let rest = place a bs in if in_front a b then a ∷ b ∷ bs else b ∷ rest

unfoldable pub sorted : List FileConnection → List FileConnection
unfolding place
sorted [] = []
sorted (c ∷ cs) = place c (sorted cs)

-- a tunnel with no host, user and key is none
file_ssh : Option SshConfig → Option SshConfig
unfolding equal
file_ssh none = none
file_ssh (some s) =
    if equal s.host [] && equal s.user [] && equal s.key_path [] then none else some s

file_connection : FileConnection → ConnectionConfig
unfolding file_ssh
file_connection c = record {
  name = c.name;
  dsn = c.dsn;
  description = c.description;
  read_only = c.read_only;
  ssl = c.ssl;
  ssh = file_ssh c.ssh;
}

-- The default configuration of `Load` and `ToConfig`; `rps` is the word of float64(100).
unfoldable pub default_config : Host → Config
default_config h = record {
  connections = [];
  limits = record {
    max_rows = 200;
    query_timeout = duration 30 second;
    db_retry_max_retries = 3;
    db_retry_max_interval = duration 10 second;
    mask_columns = [];
  };
  pool = record {
    max_open_conns = 10;
    max_idle_conns = 5;
    conn_max_lifetime = duration 30 minute;
    conn_max_idle_time = duration 5 minute;
    ping_timeout = duration 5 second;
  };
  features = record {
    extended_mode = false;
    vector_mode = false;
    tool_pack = [];
    statement_labels = true;
    http_mode = false;
    metrics_http = false;
    json_logging = false;
    token_card = false;
    token_tracking = false;
    token_model = codes "cl100k_base";
    audit_log_path = [];
  };
  http = record {
    http_port = 9306;
    http_request_timeout = duration 60 second;
    rate_limit_enabled = false;
    rate_limit_rps = h.float_of_int 100;
    rate_limit_burst = 200;
  };
  transport = [];
  mcp = record {
    bind = [];
    path = [];
    token = [];
    token_file = [];
    tls_cert = [];
    tls_key = [];
    stateless = false;
    session_timeout = 0;
    allowed_origins = [];
    allowed_hosts = [];
    allow_insecure = false;
  };
  security = record {
    allowed_databases = [];
    strict_read_only = false;
    allow_system_schemas = false;
    process_admin = false;
    read_audit_tool = false;
    slow_query_tool = false;
  };
}

abbrev positive_or : ℕ → ℕ → ℕ
positive_or n def = if positive n then n else def

abbrev scaled_or : ℕ → ℕ → ℕ → ℕ
scaled_or n unit def = if positive n then duration n unit else def

unfoldable pub file_http : FileConfig → Http → Http
file_http fc d = record {
  http_port = positive_or fc.port d.http_port;
  http_request_timeout = scaled_or fc.request_timeout_seconds second d.http_request_timeout;
  rate_limit_enabled = elim fc.rate_limit [
    | none ↦ d.rate_limit_enabled
    | some r ↦ or_default r.enabled d.rate_limit_enabled
  ];
  rate_limit_rps = elim fc.rate_limit [
    | none ↦ d.rate_limit_rps
    | some r ↦ or_default r.rps d.rate_limit_rps
  ];
  rate_limit_burst = elim fc.rate_limit [
    | none ↦ d.rate_limit_burst
    | some r ↦ or_default r.burst d.rate_limit_burst
  ];
}

file_mcp : Option FileMcpHttp → McpHttp → McpHttp
unfolding trim_space
file_mcp none d = d
file_mcp (some m) d = record {
  bind = trim_space m.bind;
  path = trim_space m.path;
  token = d.token;
  token_file = trim_space m.token_file;
  tls_cert = trim_space m.tls_cert;
  tls_key = trim_space m.tls_key;
  stateless = m.stateless;
  session_timeout = scaled_or m.session_timeout_minutes minute d.session_timeout;
  allowed_origins = m.allowed_origins;
  allowed_hosts = m.allowed_hosts;
  allow_insecure = m.allow_insecure;
}

-- `ToConfig`
unfoldable pub to_config : Host → FileConfig → Config
unfolding default_config keep_parts to_lower trim_space equal file_http file_mcp sorted
    file_connection
to_config h fc =
    let d = default_config h in
    record {
      connections = map file_connection (sorted fc.connections);
      limits = record d.limits {
        max_rows = positive_or fc.max_rows d.limits.max_rows;
        query_timeout = scaled_or fc.timeout_seconds second d.limits.query_timeout;
        mask_columns = keep_parts fc.mask_columns;
      };
      pool = record {
        max_open_conns = positive_or fc.max_open_conns d.pool.max_open_conns;
        max_idle_conns = positive_or fc.max_idle_conns d.pool.max_idle_conns;
        conn_max_lifetime = scaled_or fc.conn_max_lifetime_minutes minute d.pool.conn_max_lifetime;
        conn_max_idle_time =
            scaled_or fc.conn_max_idle_time_minutes minute d.pool.conn_max_idle_time;
        ping_timeout = scaled_or fc.ping_timeout_seconds second d.pool.ping_timeout;
      };
      features = record d.features {
        extended_mode = fc.extended_tools;
        vector_mode = fc.vector_tools;
        token_card = fc.token_card;
        tool_pack = to_lower (trim_space fc.tool_pack);
        statement_labels = or_default fc.statement_labels d.features.statement_labels;
        json_logging = fc.json_format;
        audit_log_path = fc.audit_log_path;
        token_tracking = fc.token_tracking;
        token_model =
            if equal (trim_space fc.token_model) []
            then d.features.token_model
            else trim_space fc.token_model;
        http_mode = fc.enabled;
      };
      http = file_http fc d.http;
      transport = to_lower (trim_space fc.transport);
      mcp = file_mcp fc.mcp d.mcp;
      security = fc.security;
    }
