-- ===== src/McpHttp/Refused.antt =====
-- What the checks of cmd/mysql-mcp-server/mcp_http.go keep from the handlers behind them.
use mysql_mcp_server.Prelude.{
  ◌≡◌, refl, ap, ◌⊎◌, inl, inr, ℕ, false, List, [], arith, Bytes, codes, equal, Bool-cases,
  Option-cases,
}
use mysql_mcp_server.Api.RateLimit.{RateLimiter, allow}
use mysql_mcp_server.McpHttp.{
  McpRequest, Net, McpHandler, is_authorized, is_allowed_host, get_client_ip, require_bearer_token,
  with_mcp_cors, with_allowed_hosts, with_cross_origin_protection, with_rate_limit, McpSettings,
  Endpoints, has_status, patterns, endpoint, mux, new_mcp_http_handler,
}

module _ {S : Type 0} where
  with_mcp_cors-cong :
      (allowed : List Bytes) (h h' : McpHandler S) (r : McpRequest) (s : S)
      → h r s ≡ h' r s
      → with_mcp_cors allowed h r s ≡ with_mcp_cors allowed h' r s
  unfolding with_mcp_cors
  with_mcp_cors-cong allowed h h' r s e = rw e refl

  require_bearer_token-refused :
      (token : Bytes) (h h' : McpHandler S) (r : McpRequest) (s : S)
      → equal token [] ≡ false
      → is_authorized token r ≡ false
      → require_bearer_token token h r s ≡ require_bearer_token token h' r s
  unfolding require_bearer_token
  require_bearer_token-refused token h h' r s e f = rw (e, f) refl

  guarded-refused :
      (c : McpSettings) (h h' : McpHandler S) (r : McpRequest) (s : S)
      → equal (c.token) [] ≡ false
      → is_authorized (c.token) r ≡ false
      → with_mcp_cors (c.allowed_origins) (require_bearer_token (c.token) h) r s
        ≡ with_mcp_cors (c.allowed_origins) (require_bearer_token (c.token) h') r s
  guarded-refused c h h' r s t f =
      with_mcp_cors-cong (c.allowed_origins) (require_bearer_token (c.token) h)
        (require_bearer_token (c.token) h') r s
        (require_bearer_token-refused (c.token) h h' r s t f)

  -- Two sets of handlers that differ behind the token only.
  abbrev pub IsSameOutside : Endpoints S → Endpoints S → Type 0
  IsSameOutside e e' = (e.health ≡ e'.health) × (e.not_found ≡ e'.not_found)

  endpoint-refused :
      (net : Net) (c : McpSettings) (e e' : Endpoints S) (pattern : Bytes) (r : McpRequest) (s : S)
      → IsSameOutside e e'
      → equal (c.token) [] ≡ false
      → is_authorized (c.token) r ≡ false
      → endpoint net c e pattern r s ≡ endpoint net c e' pattern r s
  unfolding endpoint
  endpoint-refused net c e e' pattern r s (h, n) t f = elim (Bool-cases (equal pattern (c.path))) [
    | inl a ↦ rw a (
        guarded-refused c (with_cross_origin_protection net (c.allowed_origins) (e.mcp))
          (with_cross_origin_protection net (c.allowed_origins) (e'.mcp)) r s t f)
    | inr a ↦ elim (Bool-cases (equal pattern (codes "/health"))) [
      | inl b ↦
          rw (a, b)
            (with_mcp_cors-cong (c.allowed_origins) (e.health) (e'.health) r s (ap (λ k. k r s) h))
      | inr b ↦ elim (Bool-cases (equal pattern (codes "/api/metrics/tokens"))) [
        | inl d ↦ rw (a, b, d) (guarded-refused c (e.metrics) (e'.metrics) r s t f)
        | inr d ↦ let k : has_status c ≡ false = ground arith in rw (a, b, d, k) (ap (λ k. k r s) n)
      ]
    ]
  ]

  mux-refused :
      (net : Net) (c : McpSettings) (e e' : Endpoints S) (r : McpRequest) (s : S)
      → IsSameOutside e e'
      → equal (c.token) [] ≡ false
      → is_authorized (c.token) r ≡ false
      → mux net c e r s ≡ mux net c e' r s
  unfolding mux
  mux-refused net c e e' r s same t f = elim (Option-cases (net.route (patterns c) (r.path))) [
    | inl a ↦ rw (mux, a) (ap (λ k. k r s) (same.1))
    | inr (pattern, a) ↦ rw (mux, a) (endpoint-refused net c e e' pattern r s same t f)
  ]

  -- The request is stopped: its Host is not allowed, or a token is required and it does not carry it,
  -- and then the handlers that need no token are the same.
  abbrev pub IsStopped : Net → McpSettings → McpRequest → Endpoints S → Endpoints S → Type 0
  IsStopped net c r e e' =
      (is_allowed_host net (c.allowed_hosts) r ≡ false)
      ⊎ ((equal (c.token) [] ≡ false) × (is_authorized (c.token) r ≡ false) × IsSameOutside e e')

  with_allowed_hosts-stopped :
      (net : Net) (c : McpSettings) (e e' : Endpoints S) (r : McpRequest) (s : S)
      → IsStopped net c r e e'
      → with_allowed_hosts net (c.allowed_hosts) (mux net c e) r s
        ≡ with_allowed_hosts net (c.allowed_hosts) (mux net c e') r s
  unfolding with_allowed_hosts
  with_allowed_hosts-stopped net c e e' r s (inl a) = rw a refl
  with_allowed_hosts-stopped net c e e' r s (inr (t, f, same)) =
      rw (mux-refused net c e e' r s same t f) refl

-- A request whose Host is not allowed has the same answer and effect whatever the handlers are, and
-- a request without the token that is required, whatever the handlers of the MCP path, of the
-- metrics and of the status page are: they are not reached.
pub new_mcp_http_handler-stopped :
    {S : Type 0} (net : Net) (c : McpSettings) (now : ℕ) (e e' : Endpoints (RateLimiter × S))
    (r : McpRequest) (rl : RateLimiter) (s : S)
    → IsStopped net c r e e'
    → new_mcp_http_handler net c now e r (rl, s) ≡ new_mcp_http_handler net c now e' r (rl, s)
unfolding new_mcp_http_handler with_rate_limit
new_mcp_http_handler-stopped net c now e e' r rl s stopped =
    rw
      (
        with_allowed_hosts-stopped net c e e' r (rl, s) stopped,
        with_allowed_hosts-stopped net c e e' r ((allow (get_client_ip net r) now rl).1, s) stopped,
      )
      refl
