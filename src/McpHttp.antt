-- ===== src/McpHttp.antt =====
-- cmd/mysql-mcp-server/mcp_http.go: what stands in front of the MCP handler, with `getClientIP` and
-- `WithRateLimit` of internal/api/ratelimit.go. The parsers of addresses, the choice of a route by
-- `http.ServeMux` and `http.CrossOriginProtection` are arguments.
pub mod Refused
pub mod Limited
pub mod Tests
use mysql_mcp_server.Prelude.{
  ℕ, Bool, true, false, not, ◌&&◌, ◌||◌, List, [], ◌∷◌, ◌++◌, map, any, Option, none, some, Bytes,
  codes, equal, to_lower, trim_space, trim_right, is_space, split_on, join, ◌==◌, if◌then◌else◌,
}
use mysql_mcp_server.Config.Types.{Host, Ip}
use mysql_mcp_server.Config.Transport.{is_loopback_bind}
use mysql_mcp_server.Api.Middleware.{Action, write_header, set_header, write_error}
use mysql_mcp_server.Api.RateLimit.{RateLimiter, allow}

-- `http.Request`, as far as it is read; a header that is missing is empty
pub record McpRequest : Type 0 where
  pub method : Bytes
  pub path : Bytes
  pub host : Bytes
  pub origin : Bytes
  pub authorization : Bytes
  pub requested_method : Bytes
  pub forwarded_for : List Bytes
  pub real_ip : Bytes
  pub remote_addr : Bytes
  pub local_addr : Option Bytes

-- `addresses` parses addresses, `split_host_port` is the host that `net.SplitHostPort` gives, `route`
-- the pattern of `http.ServeMux` for a path, and `cross_origin` whether the protection lets a request
-- pass, with the origins that it trusts.
pub record Net : Type 0 where
  pub addresses : Host
  pub split_host_port : Bytes → Option Bytes
  pub route : List Bytes → Bytes → Option Bytes
  pub cross_origin : List Bytes → McpRequest → Bool

-- a call on the response writer, `http.Error` among them
pub data Reply : Type 0 where
  call : Action → Reply
  add_header : Bytes → Bytes → Reply
  http_error : Bytes → ℕ → Reply

abbrev pub McpHandler : Type 0 → Type 0
McpHandler S = McpRequest → S → List Reply × S

abbrev pub calls : List Action → List Reply
calls actions = map call actions

-- `strings.Fields`, with the field that is being read
unfoldable pub fields_on : Bytes → Bytes → List Bytes
unfolding is_space
fields_on field [] = elim field [ [] ↦ [] | c ∷ f ↦ (c ∷ f) ∷ [] ]
fields_on field (x ∷ s) = elim (is_space x) [
  | false ↦ fields_on (field ++ (x ∷ [])) s
  | true ↦ elim field [ [] ↦ fields_on [] s | c ∷ f ↦ (c ∷ f) ∷ fields_on [] s ]
]

unfoldable pub is_bearer : Bytes → List Bytes → Bool
unfolding equal to_lower
is_bearer token (scheme ∷ credential ∷ []) =
    equal (to_lower scheme) (codes "bearer") && equal credential token
is_bearer token _ = false

-- the test of `requireBearerToken`
unfoldable pub is_authorized : Bytes → McpRequest → Bool
unfolding fields_on is_bearer
is_authorized token r = is_bearer token (fields_on [] (r.authorization))

-- `isLoopbackHostPort`
unfoldable pub is_loopback_host_port : Net → Bytes → Bool
unfolding is_loopback_bind
is_loopback_host_port net addr = elim (net.split_host_port addr) [
  | none ↦ is_loopback_bind (net.addresses) addr
  | some host ↦ is_loopback_bind (net.addresses) host
]

abbrev host_name : Net → Bytes → Bytes
host_name net host = elim (net.split_host_port host) [ none ↦ host | some h ↦ h ]

-- whether `withAllowedHosts` lets a request pass
unfoldable pub is_allowed_host : Net → List Bytes → McpRequest → Bool
unfolding is_loopback_host_port is_loopback_bind equal to_lower trim_space
is_allowed_host net allowed r = elim (r.local_addr) [
  | none ↦ true
  | some local ↦
      not (is_loopback_host_port net local)
      || any (λ h. equal (to_lower (trim_space h)) (host_name net (to_lower (r.host)))) allowed
      || is_loopback_bind (net.addresses) (host_name net (to_lower (r.host)))
]

-- the address of the peer, in `getClientIP`
unfoldable pub remote_ip : Net → Bytes → Option Ip
remote_ip net remote = elim (net.addresses.parse_ip remote) [
  | some ip ↦ some ip
  | none ↦ elim (net.split_host_port remote) [
    | none ↦ none
    | some host ↦ net.addresses.parse_ip host
  ]
]

abbrev pub last_of : List Bytes → Bytes
last_of [] = []
last_of (s ∷ []) = s
last_of (s ∷ t ∷ rest) = last_of (t ∷ rest)

-- a text, if it is an address
abbrev pub address_in : Net → Bytes → Option Bytes
address_in net s = elim (net.addresses.parse_ip s) [ none ↦ none | some ip ↦ some s ]

-- the rightmost entry of X-Forwarded-For; of a blank header the last entry is blank, and no address
abbrev pub forwarded_ip : Net → McpRequest → Option Bytes
forwarded_ip net r =
    let xff = join (codes ",") (r.forwarded_for) in
    if equal (trim_space xff) []
    then none
    else address_in net (trim_space (last_of (split_on b',' xff)))

abbrev pub real_ip_of : Net → McpRequest → Option Bytes
real_ip_of net r =
    if equal (trim_space (r.real_ip)) [] then none else address_in net (trim_space (r.real_ip))

-- the addresses that a proxy on the same host passes on
unfoldable pub proxied_ip : Net → McpRequest → Option Bytes
unfolding equal trim_space join split_on
proxied_ip net r = elim (forwarded_ip net r) [ some ip ↦ some ip | none ↦ real_ip_of net r ]

unfoldable pub direct_ip : Net → McpRequest → Bytes
unfolding remote_ip trim_space
direct_ip net r = elim (remote_ip net (trim_space (r.remote_addr))) [
  | some ip ↦ ip.text
  | none ↦ elim (net.split_host_port (trim_space (r.remote_addr))) [
    | some host ↦ host
    | none ↦ trim_space (r.remote_addr)
  ]
]

-- whether the proxy's headers are trusted
unfoldable pub is_proxied : Net → McpRequest → Bool
unfolding remote_ip trim_space
is_proxied net r = elim (remote_ip net (trim_space (r.remote_addr))) [
  | none ↦ false
  | some ip ↦ ip.loopback
]

-- `getClientIP`
unfoldable pub get_client_ip : Net → McpRequest → Bytes
unfolding is_proxied proxied_ip direct_ip
get_client_ip net r =
    if is_proxied net r
    then elim (proxied_ip net r) [ some ip ↦ ip | none ↦ direct_ip net r ]
    else direct_ip net r

abbrev pub allow_headers : Bytes
allow_headers =
    codes
      "Authorization, Content-Type, Accept, Mcp-Session-Id, Mcp-Protocol-Version, Mcp-Method, Mcp-Name, Last-Event-ID"

-- whether `withMCPCORS` knows the origin
unfoldable pub is_known_origin : List Bytes → Bytes → Bool
unfolding equal to_lower trim_right
is_known_origin allowed origin =
    not (equal origin [])
    && any (λ o. equal (trim_right (λ c. c == b'/') (to_lower o)) origin) allowed

abbrev origin_headers : Bytes → List Reply
origin_headers origin =
    add_header (codes "Vary") (codes "Origin")
    ∷ call (set_header (codes "Access-Control-Allow-Origin") origin)
    ∷ call (set_header (codes "Access-Control-Expose-Headers") (codes "Mcp-Session-Id"))
    ∷ []

abbrev preflight_headers : List Reply
preflight_headers =
    call (set_header (codes "Access-Control-Allow-Methods") (codes "GET, POST, DELETE, OPTIONS"))
    ∷ call (set_header (codes "Access-Control-Allow-Headers") allow_headers)
    ∷ call (set_header (codes "Access-Control-Max-Age") (codes "600"))
    ∷ call (write_header 204)
    ∷ []

module _ {S : Type 0} where
  -- `requireBearerToken`
  unfoldable pub require_bearer_token : Bytes → McpHandler S → McpHandler S
  unfolding equal is_authorized
  require_bearer_token token next r s =
      if equal token [] then next r s else if is_authorized token r then next r s else (
        call (set_header (codes "WWW-Authenticate") (codes "Bearer realm=\"mysql-mcp-server\""))
            ∷ http_error (codes "unauthorized") 401
            ∷ [],
        s,
      )

  -- `withMCPCORS`
  unfoldable pub with_mcp_cors : List Bytes → McpHandler S → McpHandler S
  unfolding equal is_known_origin
  with_mcp_cors allowed next r s =
      if not (is_known_origin allowed (r.origin))
      then next r s
      else if equal (r.method) (codes "OPTIONS") && not (equal (r.requested_method) [])
      then (origin_headers (r.origin) ++ preflight_headers, s)
      else (origin_headers (r.origin) ++ (next r s).0, (next r s).1)

  -- `withAllowedHosts`; the error's text quotes the header too
  unfoldable pub with_allowed_hosts : Net → List Bytes → McpHandler S → McpHandler S
  unfolding is_allowed_host
  with_allowed_hosts net allowed next r s =
      if is_allowed_host net allowed r
      then next r s
      else (http_error (codes "Forbidden: invalid Host header ") 403 ∷ [], s)

  -- `cop.Handler`
  unfoldable pub with_cross_origin_protection : Net → List Bytes → McpHandler S → McpHandler S
  with_cross_origin_protection net trusted next r s =
      if net.cross_origin trusted r
      then next r s
      else (http_error (codes "cross-origin request detected") 403 ∷ [], s)

-- `WithRateLimit`, at a time; without a limiter it is disabled
unfoldable pub with_rate_limit :
    {S : Type 0} → Net → Bool → ℕ → McpHandler (RateLimiter × S) → McpHandler (RateLimiter × S)
unfolding equal get_client_ip allow
with_rate_limit net enabled now next r (rl, s) =
    if not enabled || equal (r.method) (codes "OPTIONS")
    then next r (rl, s)
    else if (allow (get_client_ip net r) now rl).0
    then next r ((allow (get_client_ip net r) now rl).1, s)
    else (
      call (set_header (codes "Retry-After") (codes "1"))
          ∷ calls (write_error 429 (codes "rate limit exceeded")),
      ((allow (get_client_ip net r) now rl).1, s),
    )

-- The settings that the handler is built from.
pub record McpSettings : Type 0 where
  pub path : Bytes
  pub token : Bytes
  pub allowed_origins : List Bytes
  pub allowed_hosts : List Bytes
  pub token_card_enabled : Bool
  pub limited : Bool

-- The handlers behind the checks: the SDK's, and those of the other routes.
pub record Endpoints (S : Type 0) : Type 0 where
  pub mcp : McpHandler S
  pub health : McpHandler S
  pub metrics : McpHandler S
  pub status : McpHandler S
  pub not_found : McpHandler S

abbrev pub has_status : McpSettings → Bool
has_status c = c.token_card_enabled && equal (c.token) []

-- the patterns of the mux
abbrev pub patterns : McpSettings → List Bytes
patterns c =
    c.path
    ∷ codes "/health"
    ∷ codes "/api/metrics/tokens"
    ∷ (if has_status c then codes "/status" ∷ [] else [])

module _ {S : Type 0} where
  unfoldable pub endpoint : Net → McpSettings → Endpoints S → Bytes → McpHandler S
  unfolding equal with_mcp_cors require_bearer_token with_cross_origin_protection
  endpoint net c e pattern =
      if equal pattern (c.path)
      then with_mcp_cors (c.allowed_origins) (
          require_bearer_token (c.token)
            (with_cross_origin_protection net (c.allowed_origins) (e.mcp)))
      else if equal pattern (codes "/health")
      then with_mcp_cors (c.allowed_origins) (e.health)
      else if equal pattern (codes "/api/metrics/tokens")
      then with_mcp_cors (c.allowed_origins) (require_bearer_token (c.token) (e.metrics))
      else if has_status c && equal pattern (codes "/status")
      then e.status
      else e.not_found

  -- the mux
  unfoldable pub mux : Net → McpSettings → Endpoints S → McpHandler S
  unfolding endpoint equal
  mux net c e r s = elim (net.route (patterns c) (r.path)) [
    | none ↦ e.not_found r s
    | some pattern ↦ endpoint net c e pattern r s
  ]

-- `newMCPHTTPHandler`, without its logging and the deadline for the body
unfoldable pub new_mcp_http_handler :
    {S : Type 0}
    → Net
    → McpSettings
    → ℕ
    → Endpoints (RateLimiter × S)
    → McpHandler (RateLimiter × S)
unfolding with_rate_limit with_allowed_hosts mux
new_mcp_http_handler net c now e =
    with_rate_limit net (c.limited) now (with_allowed_hosts net (c.allowed_hosts) (mux net c e))
