-- ===== src/Api/Tests.antt =====
-- The theorems on internal/api at concrete inputs.
use mysql_mcp_server.Prelude.{
  ℕ, ◌+◌, ◌*◌, ◌-◌, ◌≤◌, ◌≡◌, refl, List, [], ◌∷◌, map, true, equal, arith, codes,
}
use mysql_mcp_server.Api.Middleware.{Request, Handler, encode, success, chain}
use mysql_mcp_server.Api.Middleware.Guards.{
  Guard, feature, param, middleware, first_refusal, answer, chain-guards,
}
use mysql_mcp_server.Api.RateLimit.{Event, request, tick, new_rate_limiter, grants}
use mysql_mcp_server.Api.RateLimit.Bound.{grants_bound}

-- Three requests of one client in a microsecond, one of another, and a cleanup.
abbrev burst_of_requests : List Event
burst_of_requests =
    request (codes "10.0.0.1") 10
    ∷ request (codes "10.0.0.1") 20
    ∷ request (codes "10.0.0.2") 30
    ∷ tick 40
    ∷ request (codes "10.0.0.1") 1000
    ∷ []

-- At 100 requests in a second, a burst of 2.
grants_bound_example :
    grants (codes "10.0.0.1") burst_of_requests (new_rate_limiter 1 10000000 2) * 10000000
    ≤ 2 * 10000000 + (1000 - 0) * 1
grants_bound_example =
    grants_bound 1 10000000 2 (codes "10.0.0.1") 0 1000 burst_of_requests (omega arith)
      (omega arith)
      (omega arith, (omega arith, (omega arith, (omega arith, (omega arith, omega arith)))))

-- A handler that counts its calls.
abbrev counting : Handler ℕ
counting r n = (encode (success []) ∷ [], n + 1)

abbrev guards : List Guard
guards = feature true (codes "extended") ∷ param (codes "database") ∷ []

abbrev bare_request : Request
bare_request = record { method = codes "GET"; query = λ name. [] }

chain-guards_example :
    chain counting (map middleware guards) bare_request 0
    ≡ answer counting bare_request 0 (first_refusal guards bare_request)
chain-guards_example = chain-guards counting bare_request 0 guards (unfold equal in refl)
