-- ===== src/Config/Transport/Safe.antt =====
-- What `ValidateTransport` accepts.
use mysql_mcp_server.Prelude.{
  ◌≡◌, ◌≢◌, ◌↔◌, ◌⊎◌, refl, true, false, not, ◌||◌, List, [], ◌∷◌, none, arith, Bytes, codes,
  equal_iff, contains_any, any, length, ltb,
}
use mysql_mcp_server.Config.Types.{Host, Config, McpHttp}
use mysql_mcp_server.Config.Transport.{
  validate_transport, validate_mcp, validate_mcp_http_path, validate_origin, is_loopback_bind,
  exposed,
}

-- The settings of the Streamable HTTP transport go together, and the server is not open to other
-- hosts without a token and, unless a flag says that a proxy adds it, TLS.
pub record IsSafeMcp (h : Host) (m : McpHttp) : Type 0 where
  pub path : validate_mcp_http_path h m.path ≡ true
  pub origins : any (λ o. not (validate_origin h o)) m.allowed_origins ≡ false
  pub bind : (h.splits_host_port m.bind || contains_any m.bind (codes "[]/ ")) ≡ false
  pub tls : (m.tls_cert ≡ []) ↔ (m.tls_key ≡ [])
  pub proxied : (m.allowed_hosts ≡ []) ⊎ (m.token ≢ [])
  pub exposed_token : is_loopback_bind h m.bind ≡ false → m.token ≢ []
  pub exposed_tls :
      is_loopback_bind h m.bind ≡ false → (m.tls_cert ≢ []) ⊎ (m.allow_insecure ≡ true)

-- Stdio, or Streamable HTTP without the REST API and with safe settings.
abbrev pub IsSafe : Host → Config → Type 0
IsSafe h c =
    (c.transport ≡ codes "stdio")
    ⊎ ((c.transport ≡ codes "http") × (c.features.http_mode ≡ false) × IsSafeMcp h c.mcp)

some_hosts : (hosts : List Bytes) → (ltb 0 (length hosts) ≡ false) ↔ (hosts ≡ [])
some_hosts [] = (λ e. refl, λ e. refl)
some_hosts (x ∷ xs) = (λ e. ground arith, λ e. ground arith)

validate_mcp-safe : (h : Host) (m : McpHttp) → validate_mcp h m ≡ none → IsSafeMcp h m
unfolding validate_mcp exposed
validate_mcp-safe h m e = record {
  path = ground arith;
  origins = ground arith;
  bind = ground arith;
  tls = ground (arith, equal_iff m.tls_cert [], equal_iff m.tls_key []);
  proxied = ground (arith, equal_iff m.token [], some_hosts m.allowed_hosts);
  exposed_token = λ l. ground (arith, equal_iff m.token []);
  exposed_tls = λ l. ground (arith, equal_iff m.tls_cert []);
}

safe-validate_mcp : (h : Host) (m : McpHttp) → IsSafeMcp h m → validate_mcp h m ≡ none
unfolding validate_mcp exposed
safe-validate_mcp h m s = ground (
  arith,
  equal_iff m.token [],
  equal_iff m.tls_cert [],
  equal_iff m.tls_key [],
  some_hosts m.allowed_hosts,
)

-- `ValidateTransport` accepts a configuration exactly if the transport is stdio, or it is http, the
-- REST API is off, and: the endpoint's path and every allowed origin are valid, the address to bind
-- is without port and brackets, TLS has both its files or none, hosts of a proxy come with a token,
-- and an address that is not loopback comes with a token and with TLS or the flag that waives it.
pub validate_transport_iff : (h : Host) (c : Config) → (validate_transport h c ≡ none) ↔ IsSafe h c
unfolding validate_transport
validate_transport_iff h c = (
  ground (
    arith,
    equal_iff c.transport (codes "stdio"),
    equal_iff c.transport (codes "http"),
    validate_mcp-safe h c.mcp,
  ),
  ground (
    arith,
    equal_iff c.transport (codes "stdio"),
    equal_iff c.transport (codes "http"),
    safe-validate_mcp h c.mcp,
  ),
)
