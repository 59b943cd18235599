-- ===== src/Config/Transport.antt =====
-- internal/config/config.go: `applyMCPHTTPDefaults`, `resolveMCPHTTPToken`, `validateToolPack`,
-- `validateConnectionNames` and `ValidateTransport`, with what they call.
pub mod Safe
pub mod Token
use mysql_mcp_server.Prelude.{
  ℕ, suc, ◌-◌, ◌+◌, ◌*◌, ◌%◌, Bool, true, false, not, ◌&&◌, ◌||◌, List, [], ◌∷◌, ◌++◌, map, Option,
  none, some, Bytes, codes, equal, to_lower, trim_space, trim_left, trim_right, has_prefix,
  contains_byte, contains_any, any, length, take, drop, leb, ltb, ◌==◌, if◌then◌else◌, Result, ok,
  err,
}
use mysql_mcp_server.Config.Types.{Host, Url, Ip, Config, McpHttp, ConnectionConfig}
use mysql_mcp_server.Config.Env.{minute, duration, atoi}
use mysql_mcp_server.Connection.Dial.{session_conn_prefix}

pub data ConfigError : Type 0 where
  file_unreadable connections_unreadable no_connections : ConfigError
  reserved_name empty_dsn bad_tool_pack : ConfigError
  token_file_unreadable token_file_empty : ConfigError
  bad_transport rest_api_too bad_path bad_origin bad_bind tls_incomplete : ConfigError
  hosts_need_token bind_needs_token bind_needs_tls : ConfigError

-- `strings.HasSuffix s c` for one byte
unfoldable pub ends_with : Bytes → ℕ → Bool
ends_with [] c = false
ends_with (x ∷ []) c = x == c
ends_with (x ∷ y ∷ s) c = ends_with (y ∷ s) c

-- the port of an origin: none, or from 1 to 65535
abbrev port_ok : Bytes → Bool
port_ok [] = true
port_ok (c ∷ s) = elim (atoi (c ∷ s)) [ none ↦ false | some n ↦ leb 1 n && leb n 65535 ]

-- an IPv4-mapped IPv6 host
abbrev mapped_v4 : Bytes → Option Ip → Bool
mapped_v4 host none = false
mapped_v4 host (some ip) = contains_byte host b':' && ip.is_v4

abbrev origin_ok : Host → Option Url → Bool
origin_ok h none = false
origin_ok h (some u) =
    (equal u.scheme (codes "http") || equal u.scheme (codes "https"))
    && not (equal u.hostname [])
    && (equal u.path [] || equal u.path (codes "/"))
    && not u.has_user
    && not (ends_with u.host b':')
    && not (mapped_v4 u.hostname (h.parse_ip u.hostname))
    && port_ok u.port

-- `validateOrigin`: whether it returns nil
unfoldable pub validate_origin : Host → Bytes → Bool
unfolding equal contains_any contains_byte ends_with atoi
validate_origin h o = not (contains_any o (codes "?#")) && origin_ok h (h.parse_url o)

abbrev bracketed : Bytes → Bytes
bracketed host = b'[' ∷ (host ++ codes "]")

abbrev origin_host : Bytes → Option Ip → Bytes
origin_host host (some ip) = if ip.is_v4 then ip.text else bracketed ip.text
origin_host host none = if contains_byte host b':' then bracketed host else host

abbrev origin_port : Bytes → Bytes → Bytes
origin_port scheme port =
    if (equal scheme (codes "https") && equal port (codes "443"))
      || (equal scheme (codes "http") && equal port (codes "80"))
    then []
    else port

abbrev with_port : Bytes → Bytes → Bytes
with_port host [] = host
with_port host (c ∷ port) = host ++ (codes ":" ++ (c ∷ port))

-- `canonicalOrigin`
unfoldable pub canonical_origin : Host → Bytes → Bytes
unfolding to_lower equal contains_byte
canonical_origin h o = elim (h.parse_url o) [
  | none ↦ o
  | some u ↦
      let host = to_lower u.hostname in
      to_lower u.scheme
      ++ (codes "://"
          ++ with_port (origin_host host (h.parse_ip host))
              (origin_port (to_lower u.scheme) u.port))
]

-- the body of the loop over the allowed origins
normal_origin : Host → Bytes → Bytes
unfolding validate_origin canonical_origin trim_space
normal_origin h o =
    if validate_origin h (trim_space o) then canonical_origin h (trim_space o) else trim_space o

or_else : Bytes → Bytes → Bytes
unfolding equal
or_else s def = if equal s [] then def else s

-- brackets around the address, as in `[::1]`, are dropped; the text in them is `s[1 : len(s)-1]`
unbracket : Bytes → Bytes
unfolding has_prefix ends_with
unbracket s =
    if has_prefix s (codes "[") && ends_with s b']' then take (length s - 2) (drop 1 s) else s

-- `applyMCPHTTPDefaults`
unfoldable pub apply_mcp_http_defaults : Host → Config → Config
unfolding or_else unbracket trim_space normal_origin
apply_mcp_http_defaults h c = record c {
  transport = or_else c.transport (codes "stdio");
  mcp = record c.mcp {
    bind = or_else (unbracket (trim_space c.mcp.bind)) (codes "127.0.0.1");
    path = or_else c.mcp.path (codes "/mcp");
    session_timeout =
        if c.mcp.session_timeout == 0 then duration 30 minute else c.mcp.session_timeout;
    allowed_origins = map (normal_origin h) c.mcp.allowed_origins;
  };
}

pub with_token : Bytes → Config → Result ConfigError Config
unfolding equal
with_token token c =
    if equal token []
    then err token_file_empty
    else ok (record c { mcp = record c.mcp { token = token } })

-- `resolveMCPHTTPToken`
unfoldable pub resolve_mcp_http_token : Host → Config → Result ConfigError Config
unfolding equal trim_space with_token
resolve_mcp_http_token h c =
    if not (equal c.transport (codes "http"))
      || not (equal c.mcp.token [])
      || equal c.mcp.token_file []
    then ok c
    else elim (h.read_file c.mcp.token_file) [
      | none ↦ err token_file_unreadable
      | some b ↦ with_token (trim_space b) c
    ]

-- `strings.Trim s "[]"`
abbrev trim_brackets : Bytes → Bytes
trim_brackets s =
    trim_right (λ c. c == b'[' || c == b']') (trim_left (λ c. c == b'[' || c == b']') s)

-- `IsLoopbackBind`
unfoldable pub is_loopback_bind : Host → Bytes → Bool
unfolding trim_left trim_right trim_space equal to_lower
is_loopback_bind h addr =
    let host = trim_brackets (trim_space addr) in
    if equal (to_lower host) (codes "localhost")
    then true
    else elim (h.parse_ip host) [ none ↦ false | some ip ↦ ip.loopback ]

-- `validateToolPack`
unfoldable pub validate_tool_pack : Bytes → Bool
unfolding equal
validate_tool_pack v = equal v [] || equal v (codes "auto") || equal v (codes "off")

abbrev reserved_mcp_http_paths : List Bytes
reserved_mcp_http_paths = codes "/health" ∷ codes "/status" ∷ codes "/api/metrics/tokens" ∷ []

-- `validateMCPHTTPPath`
unfoldable pub validate_mcp_http_path : Host → Bytes → Bool
unfolding equal has_prefix contains_any
validate_mcp_http_path h p =
    has_prefix p (codes "/")
    && not (equal p (codes "/"))
    && equal (h.clean p) p
    && not (contains_any p (codes "{}?#% \t"))
    && not (any (equal p) reserved_mcp_http_paths)

-- the checks of an address that is open to other hosts
pub exposed : Host → McpHttp → Option ConfigError
unfolding is_loopback_bind equal
exposed h m =
    if is_loopback_bind h m.bind
    then none
    else if equal m.token []
    then some bind_needs_token
    else if equal m.tls_cert [] && not m.allow_insecure
    then some bind_needs_tls
    else none

pub validate_mcp : Host → McpHttp → Option ConfigError
unfolding validate_mcp_http_path validate_origin contains_any equal exposed
validate_mcp h m =
    if not (validate_mcp_http_path h m.path)
    then some bad_path
    else if any (λ o. not (validate_origin h o)) m.allowed_origins
    then some bad_origin
    else if h.splits_host_port m.bind || contains_any m.bind (codes "[]/ ")
    then some bad_bind
    else if (equal m.tls_cert [] && not (equal m.tls_key []))
        || (not (equal m.tls_cert []) && equal m.tls_key [])
    then some tls_incomplete
    else if ltb 0 (length m.allowed_hosts) && equal m.token []
    then some hosts_need_token
    else exposed h m

-- `ValidateTransport`
unfoldable pub validate_transport : Host → Config → Option ConfigError
unfolding validate_mcp equal
validate_transport h c =
    if equal c.transport (codes "stdio")
    then none
    else if not (equal c.transport (codes "http"))
    then some bad_transport
    else if c.features.http_mode
    then some rest_api_too
    else validate_mcp h c.mcp

-- `validateConnectionNames`
unfoldable pub validate_connection_names : List ConnectionConfig → Bool
unfolding has_prefix
validate_connection_names conns = not (any (λ c. has_prefix c.name session_conn_prefix) conns)
