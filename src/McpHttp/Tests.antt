-- ===== src/McpHttp/Tests.antt =====
-- The theorems on the MCP HTTP transport at concrete inputs.
use mysql_mcp_server.Prelude.{
  ◌≡◌, ◌≤◌, ◌*◌, ◌+◌, ◌-◌, refl, ℕ, true, false, List, All, inl, arith, trim_space, [], ◌∷◌, none,
  some, inr, Bytes, codes, equal, any, if◌then◌else◌,
}
use mysql_mcp_server.Config.Types.{Host, Ip}
use mysql_mcp_server.Api.RateLimit.{RateLimiter, new_rate_limiter}
use mysql_mcp_server.McpHttp.{
  McpRequest, Net, http_error, is_authorized, McpSettings, Endpoints, new_mcp_http_handler,
}
use mysql_mcp_server.McpHttp.Refused.{IsStopped, new_mcp_http_handler-stopped}
use mysql_mcp_server.McpHttp.Limited.{IsFrom, serve, serve_bound}

-- Addresses are parsed when they are 127.0.0.1 or 10.0.0.7.
abbrev addresses : Host
addresses = record {
  getenv = λ k. [];
  read_file = λ p. none;
  unmarshal_connections = λ s. none;
  parse_url = λ s. none;
  parse_ip = λ s.
      if equal s (codes "127.0.0.1")
      then some (record { loopback = true; is_v4 = true; text = s })
      else if equal s (codes "10.0.0.7")
      then some (record { loopback = false; is_v4 = true; text = s })
      else none;
  splits_host_port = λ s. false;
  clean = λ p. p;
  float_of_int = λ n. n;
  int_of_float = λ n. n;
}

abbrev net : Net
net = record {
  addresses = addresses;
  split_host_port = λ s. if equal s (codes "10.0.0.7:4711") then some (codes "10.0.0.7") else none;
  route = λ patterns path. if any (equal path) patterns then some path else none;
  cross_origin = λ trusted r. true;
}

abbrev request : Bytes → McpRequest
request forwarded = record {
  method = codes "POST";
  path = codes "/mcp";
  host = codes "localhost";
  origin = [];
  authorization = codes "Bearer guess";
  requested_method = [];
  forwarded_for = forwarded ∷ [];
  real_ip = [];
  remote_addr = codes "10.0.0.7";
  local_addr = none;
}

abbrev settings : McpSettings
settings = record {
  path = codes "/mcp";
  token = codes "secret";
  allowed_origins = [];
  allowed_hosts = [];
  token_card_enabled = false;
  limited = true;
}

-- Handlers that answer with a status; they differ on the MCP path.
abbrev answering : ℕ → Endpoints (RateLimiter × Unit {0})
answering status = record {
  mcp = λ r s. (http_error [] status ∷ [], s);
  health = λ r s. (http_error [] 200 ∷ [], s);
  metrics = λ r s. (http_error [] status ∷ [], s);
  status = λ r s. (http_error [] status ∷ [], s);
  not_found = λ r s. (http_error [] 404 ∷ [], s);
}

stopped : IsStopped net settings (request []) (answering 200) (answering 500)
unfolding equal is_authorized
stopped = inr (refl, refl, (refl, refl))

new_mcp_http_handler-stopped_example :
    new_mcp_http_handler net settings 0 (answering 200) (request []) (new_rate_limiter 1 1 1, tt)
    ≡ new_mcp_http_handler net settings 0 (answering 500) (request []) (new_rate_limiter 1 1 1, tt)
new_mcp_http_handler-stopped_example =
    new_mcp_http_handler-stopped net settings 0 (answering 200) (answering 500) (request [])
      (new_rate_limiter 1 1 1) tt stopped

-- One peer, with other headers and another port each time.
abbrev requests : List (McpRequest × ℕ)
requests =
    (request [], 1)
    ∷ (request (codes "127.0.0.1"), 2)
    ∷ (record (request (codes "10.1.1.1")) { remote_addr = codes "10.0.0.7:4711" }, 5)
    ∷ []

abbrev peer : Ip
peer = record { loopback = false; is_v4 = true; text = codes "10.0.0.7" }

IsFrom-peer :
    All (λ p. IsFrom net peer p.0 × (equal (p.0).method (codes "OPTIONS") ≡ false)) requests
unfolding equal trim_space
IsFrom-peer =
    ((inl refl, refl), ((inl refl, refl), ((inr (refl, (codes "10.0.0.7", refl, refl)), refl), tt)))

serve_bound_example : (serve net requests (new_rate_limiter 1 2 2, 0)).1 * 2 ≤ 2 * 2 + (5 - 0) * 1
serve_bound_example =
    serve_bound net peer requests 1 2 2 0 5 refl IsFrom-peer (omega arith) (omega arith)
      (omega arith, (omega arith, (omega arith, omega arith)))
