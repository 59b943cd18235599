-- ===== src/McpHttp/Limited.antt =====
-- internal/api/ratelimit.go: what `getClientIP` and `WithRateLimit` together let a peer through.
use mysql_mcp_server.Prelude.{
  ◌≡◌, subst, ◌∙◌, ◌⊎◌, sym, ap, inl, inr, ℕ, suc, ◌+◌, ◌*◌, ◌-◌, ◌≤◌, true, false, List, [], ◌∷◌,
  All, none, some, arith, Bytes, codes, equal, equal_refl, trim_space,
}
use mysql_mcp_server.Config.Types.{Ip}
use mysql_mcp_server.Api.RateLimit.{
  RateLimiter, Event, request, new_rate_limiter, step, granted, grants, cleanup_interval,
}
use mysql_mcp_server.Api.RateLimit.Bound.{InOrder, grants_bound}
use mysql_mcp_server.McpHttp.{
  McpRequest, McpHandler, Net, remote_ip, is_proxied, direct_ip, get_client_ip, with_rate_limit,
}

-- The request comes from the address, with a port or without.
abbrev pub IsFrom : Net → Ip → McpRequest → Type 0
IsFrom net ip r =
    (net.addresses.parse_ip (trim_space r.remote_addr) ≡ some ip)
    ⊎ ((net.addresses.parse_ip (trim_space r.remote_addr) ≡ none)
        × ((host : Bytes) × (net.split_host_port (trim_space r.remote_addr) ≡ some host)
            × (net.addresses.parse_ip host ≡ some ip)))

-- A handler that counts how often it is called.
abbrev pub counted : McpHandler (RateLimiter × ℕ)
counted r (rl, n) = ([], (rl, suc n))

-- Requests, each with its time, that are served in turn: the limiter behind them and how many came
-- through.
abbrev pub serve : Net → List (McpRequest × ℕ) → RateLimiter × ℕ → RateLimiter × ℕ
serve net [] s = s
serve net ((r, t) ∷ rs) s = serve net rs (with_rate_limit net true t counted r s).1

-- The requests as events of the limiter, as from one client.
abbrev pub events_of : Bytes → List (McpRequest × ℕ) → List Event
events_of ip [] = []
events_of ip ((r, t) ∷ rs) = request ip t ∷ events_of ip rs

remote_ip_from :
    (net : Net) (ip : Ip) (r : McpRequest)
    → IsFrom net ip r
    → remote_ip net (trim_space r.remote_addr) ≡ some ip
unfolding remote_ip
remote_ip_from net ip r (inl e) = ground arith
remote_ip_from net ip r (inr (n, (host, s, e))) = ground arith

get_client_ip_from :
    (net : Net) (ip : Ip) (r : McpRequest)
    → IsFrom net ip r
    → ip.loopback ≡ false
    → get_client_ip net r ≡ ip.text
unfolding get_client_ip is_proxied direct_ip
get_client_ip_from net ip r h l = let e = remote_ip_from net ip r h in ground arith

-- What one request leaves: the limiter after the client's event, and one more if it is granted.
serve_step :
    (net : Net) (ip : Bytes) (r : McpRequest) (t : ℕ) (rl : RateLimiter) (n : ℕ)
    → get_client_ip net r ≡ ip
    → equal r.method (codes "OPTIONS") ≡ false
    → (with_rate_limit net true t counted r (rl, n)).1
      ≡ (step (request ip t) rl, n + granted ip (request ip t) rl)
unfolding with_rate_limit step granted
serve_step net ip r t rl n g m = let q = equal_refl ip in ground arith

serve-grants :
    (net : Net) (ip : Ip) (rs : List (McpRequest × ℕ)) (rl : RateLimiter) (n : ℕ)
    → ip.loopback ≡ false
    → All (λ p. IsFrom net ip p.0 × (equal (p.0).method (codes "OPTIONS") ≡ false)) rs
    → (serve net rs (rl, n)).1 ≡ n + grants ip.text (events_of ip.text rs) rl
unfolding grants
serve-grants net ip [] rl n l h = omega arith
serve-grants net ip ((r, t) ∷ rs) rl n l ((f, m), h) =
    ap (λ s. (serve net rs s).1)
      (serve_step net ip.text r t rl n (get_client_ip_from net ip r f l) m)
    ∙ serve-grants net ip rs (step (request ip.text t) rl)
        (n + granted ip.text (request ip.text t) rl) l h
    ∙ omega arith

-- Requests that all come from one peer, not on a loopback address, are served in the order of their
-- times by a new limiter: at most the burst and what the rate gives from `start` to `end` come
-- through, whatever forwarding headers they carry and whatever ports they come from. Preflights
-- (OPTIONS) are not among them; the burst is one at least, and five minutes refill a bucket.
pub serve_bound :
    (net : Net) (ip : Ip) (rs : List (McpRequest × ℕ)) (rate unit burst start end : ℕ)
    → ip.loopback ≡ false
    → All (λ p. IsFrom net ip p.0 × (equal (p.0).method (codes "OPTIONS") ≡ false)) rs
    → 1 ≤ burst
    → burst * unit ≤ cleanup_interval * rate
    → InOrder start end (events_of ip.text rs)
    → (serve net rs (new_rate_limiter rate unit burst, 0)).1 * unit
      ≤ burst * unit + (end - start) * rate
serve_bound net ip rs rate unit burst start end l h b f o =
    subst (λ k. k * unit ≤ burst * unit + (end - start) * rate)
      (sym (serve-grants net ip rs (new_rate_limiter rate unit burst) 0 l h ∙ omega arith))
      (grants_bound rate unit burst ip.text start end (events_of ip.text rs) b f o)
