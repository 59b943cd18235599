-- ===== src/Config/Tests.antt =====
-- The theorems on internal/config at concrete inputs.
use mysql_mcp_server.Prelude.{
  ◌≡◌, ◌↔◌, refl, true, false, [], none, arith, Bytes, codes, equal, equal_iff, contains_byte,
  trim_space, if◌then◌else◌, ok,
}
use mysql_mcp_server.Config.Types.{Host, Config}
use mysql_mcp_server.Config.Env.Csv.{IsEntry}
use mysql_mcp_server.Config.Transport.{validate_transport}
use mysql_mcp_server.Config.Transport.Safe.{IsSafe, validate_transport_iff}
use mysql_mcp_server.Config.File.{FileConfig}
use mysql_mcp_server.Config.Load.{no_file, decoded, load, validate_config_file}
use mysql_mcp_server.Config.Load.Sound.{IsLoaded, load-IsLoaded}
use mysql_mcp_server.Config.Load.Positive.{IsPositive, load-IsPositive}
use mysql_mcp_server.Config.Load.Agreement.{some_empty_dsn, validate_config_file-load}

-- A host without files, on which every path is clean and no text is a URL or an address.
abbrev host_of : (Bytes → Bytes) → Host
host_of env = record {
  getenv = env;
  read_file = λ p. none;
  unmarshal_connections = λ s. none;
  parse_url = λ s. none;
  parse_ip = λ s. none;
  splits_host_port = λ s. false;
  clean = λ p. p;
  float_of_int = λ n. n;
  int_of_float = λ n. n;
}

-- Two variables are set.
abbrev shop_env : Bytes → Bytes
shop_env key =
    if equal key (codes "MYSQL_DSN")
    then codes "app:pw@tcp(db:3306)/shop"
    else if equal key (codes "MYSQL_MAX_ROWS")
    then codes " 50 "
    else []

abbrev host : Host
host = host_of shop_env

loaded : (c : Config) × (load host no_file ≡ ok c)
unfolding load equal
loaded = (_, refl)

load-IsLoaded_example : IsLoaded host loaded.0
load-IsLoaded_example = load-IsLoaded host no_file loaded.1

load-IsPositive_example : IsPositive loaded.0
load-IsPositive_example = load-IsPositive host no_file loaded.1

validate_transport_iff_example : (validate_transport host loaded.0 ≡ none) ↔ IsSafe host loaded.0
validate_transport_iff_example = validate_transport_iff host loaded.0

abbrev file : FileConfig
file = record {
  connections = [];
  max_rows = 0;
  timeout_seconds = 0;
  mask_columns = [];
  max_open_conns = 0;
  max_idle_conns = 0;
  conn_max_lifetime_minutes = 0;
  conn_max_idle_time_minutes = 0;
  ping_timeout_seconds = 0;
  extended_tools = true;
  vector_tools = false;
  token_card = false;
  tool_pack = codes " OFF";
  statement_labels = none;
  security = record {
    allowed_databases = [];
    strict_read_only = true;
    allow_system_schemas = false;
    process_admin = false;
    read_audit_tool = false;
    slow_query_tool = false;
  };
  json_format = false;
  audit_log_path = [];
  token_tracking = false;
  token_model = [];
  transport = [];
  enabled = false;
  port = 0;
  request_timeout_seconds = 0;
  rate_limit = none;
  mcp = none;
}

validate_config_file-load_example :
    (validate_config_file host file ≡ ok loaded.0)
    ↔ ((load host (decoded file) ≡ ok loaded.0) × (some_empty_dsn loaded.0.connections ≡ false))
validate_config_file-load_example = validate_config_file-load host file

entry :
    (s : Bytes) → trim_space s ≡ s → (equal s [] ≡ false) → contains_byte s b',' ≡ false → IsEntry s
entry s t e c = record { trimmed = t; some_byte = ground (arith, equal_iff s []); no_comma = c }
