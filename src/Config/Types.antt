-- ===== src/Config/Types.antt =====
-- internal/config/config.go: `Config` and its parts. The fields of `Config` stand in the groups that
-- the source's comments name. A Go `int` and a `time.Duration` (in nanoseconds) are 64-bit words in
-- two's complement, written as naturals; a `float64` is the word of its bits.
use mysql_mcp_server.Prelude.{ℕ, Bool, List, Option, Bytes}

-- `SSHConfig`; the last two fields are read by the SSH client only
pub record SshConfig : Type 0 where
  pub host : Bytes
  pub user : Bytes
  pub key_path : Bytes
  pub port : ℕ
  pub strict_host_key_checking : Option Bool
  pub known_hosts_path : Bytes
  pub host_key_fingerprint : Bytes

pub record ConnectionConfig : Type 0 where
  pub name : Bytes
  pub dsn : Bytes
  pub description : Bytes
  pub read_only : Bool
  pub ssl : Bytes
  pub ssh : Option SshConfig

-- query limits, masking and the retries of transient errors
pub record Limits : Type 0 where
  pub max_rows : ℕ
  pub query_timeout : ℕ
  pub db_retry_max_retries : ℕ
  pub db_retry_max_interval : ℕ
  pub mask_columns : List Bytes

pub record Pool : Type 0 where
  pub max_open_conns : ℕ
  pub max_idle_conns : ℕ
  pub conn_max_lifetime : ℕ
  pub conn_max_idle_time : ℕ
  pub ping_timeout : ℕ

pub record Features : Type 0 where
  pub extended_mode : Bool
  pub vector_mode : Bool
  pub tool_pack : Bytes
  pub statement_labels : Bool
  pub http_mode : Bool
  pub metrics_http : Bool
  pub json_logging : Bool
  pub token_card : Bool
  pub token_tracking : Bool
  pub token_model : Bytes
  pub audit_log_path : Bytes

pub record Http : Type 0 where
  pub http_port : ℕ
  pub http_request_timeout : ℕ
  pub rate_limit_enabled : Bool
  pub rate_limit_rps : ℕ
  pub rate_limit_burst : ℕ

-- the fields `MCPHTTP…`, without that prefix
pub record McpHttp : Type 0 where
  pub bind : Bytes
  pub path : Bytes
  pub token : Bytes
  pub token_file : Bytes
  pub tls_cert : Bytes
  pub tls_key : Bytes
  pub stateless : Bool
  pub session_timeout : ℕ
  pub allowed_origins : List Bytes
  pub allowed_hosts : List Bytes
  pub allow_insecure : Bool

pub record Security : Type 0 where
  pub allowed_databases : List Bytes
  pub strict_read_only : Bool
  pub allow_system_schemas : Bool
  pub process_admin : Bool
  pub read_audit_tool : Bool
  pub slow_query_tool : Bool

pub record Config : Type 0 where
  pub connections : List ConnectionConfig
  pub limits : Limits
  pub pool : Pool
  pub features : Features
  pub http : Http
  pub transport : Bytes
  pub mcp : McpHttp
  pub security : Security

-- the fields of `url.URL` that are read
pub record Url : Type 0 where
  pub scheme : Bytes
  pub hostname : Bytes
  pub host : Bytes
  pub port : Bytes
  pub path : Bytes
  pub has_user : Bool

-- what is asked of a `net.IP`
pub record Ip : Type 0 where
  pub loopback : Bool
  pub is_v4 : Bool
  pub text : Bytes

-- What the process gets from outside: the environment (an unset variable is empty), the files, and
-- the parsers of encoding/json, net/url, net and path.
pub record Host : Type 0 where
  pub getenv : Bytes → Bytes
  pub read_file : Bytes → Option Bytes
  pub unmarshal_connections : Bytes → Option (List ConnectionConfig)
  pub parse_url : Bytes → Option Url
  pub parse_ip : Bytes → Option Ip
  pub splits_host_port : Bytes → Bool
  pub clean : Bytes → Bytes
  -- the conversions between `int` and `float64`
  pub float_of_int : ℕ → ℕ
  pub int_of_float : ℕ → ℕ
