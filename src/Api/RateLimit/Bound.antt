-- ===== src/Api/RateLimit/Bound.antt =====
-- How many requests of a client are allowed.
use mysql_mcp_server.Prelude.{ℕ, ◌+◌, ◌*◌, ◌-◌, ◌≤◌, ◌≡◌, List, [], ◌∷◌, arith, Bytes}
use native.Mathlib.Nat.{add-mul}
use mysql_mcp_server.Prelude.Assoc.{lookup}
use mysql_mcp_server.Api.RateLimit.{
  RateLimiter, Event, time, new_rate_limiter, step, granted, grants, cleanup_interval,
}
use mysql_mcp_server.Api.RateLimit.Available.{
  IsLimiter, available, available_in, split-times, available_in-later, step-available,
  step-IsLimiter, later-IsLimiter, same_settings,
}

-- The events come in the order of their times, from `start` to `end`.
abbrev pub InOrder : ℕ → ℕ → List Event → Type 0
InOrder start end [] = start ≤ end
InOrder start end (e ∷ es) = (start ≤ time e) × InOrder (time e) end es

InOrder-le : (start end : ℕ) (es : List Event) → InOrder start end es → start ≤ end
InOrder-le start end [] o = o
InOrder-le start end (e ∷ es) (l, o) = omega (arith, l, InOrder-le (time e) end es o)

add-up :
    (g k u r u' r' before spent there s t e : ℕ)
    → u' ≡ u
    → r' ≡ r
    → s ≤ t
    → t ≤ e
    → k * u' ≤ spent + (e - t) * r'
    → g * u + spent ≤ there
    → there ≤ before + (t - s) * r
    → (g + k) * u ≤ before + (e - s) * r
add-up g k u r u' r' before spent there s t e p q l m h i j =
    let h1 : k * u ≤ spent + (e - t) * r = rw (← p) (rw (← q) h) in
    omega (arith, h1, i, j, add-mul g k u, split-times r t e s l m)

grants-available :
    (ip : Bytes) (start end : ℕ) (es : List Event) (rl : RateLimiter)
    → InOrder start end es
    → IsLimiter start rl
    → grants ip es rl * rl.unit ≤ available ip start rl + (end - start) * rl.rate
unfolding grants available
grants-available ip start end [] rl l v = omega arith
grants-available ip start end (e ∷ es) rl (l, o) v =
    let w = later-IsLimiter start (time e) rl l v in
    let (u, r) = same_settings e rl in
    add-up (granted ip e rl) (grants ip es (step e rl)) rl.unit rl.rate _ _ (available ip start rl)
      (available ip (time e) (step e rl)) (available ip (time e) rl) start (time e) end u r l
      (InOrder-le (time e) end es o)
      (grants-available ip (time e) end es (step e rl) o (step-IsLimiter e rl w))
      (step-available ip e rl w)
      (available_in-later start (time e) rl (lookup ip rl.buckets) (v.past ip) l)

-- In every run of a new limiter from `start` to `end`, requests of other clients and cleanups
-- included, a client is granted at most the burst and what the rate gives in that time, if the burst
-- is one at least and five minutes refill a bucket.
pub grants_bound :
    (rate unit burst : ℕ) (ip : Bytes) (start end : ℕ) (es : List Event)
    → 1 ≤ burst
    → burst * unit ≤ cleanup_interval * rate
    → InOrder start end es
    → grants ip es (new_rate_limiter rate unit burst) * unit ≤ burst * unit + (end - start) * rate
unfolding new_rate_limiter available available_in lookup
grants_bound rate unit burst ip start end es b f o =
    grants-available ip start end es (new_rate_limiter rate unit burst) o
      (record { some_burst = b; refills = f; past = λ j d e. cc })
