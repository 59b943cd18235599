-- ===== src/Api/RateLimit.antt =====
-- internal/api/ratelimit.go: the token bucket per client. Times are nanoseconds of the monotonic
-- clock. A token is counted in parts, so many that a whole number of them comes in each nanosecond;
-- the rounding of the `float64` arithmetic is left out.
pub mod Available
pub mod Bound
use mysql_mcp_server.Prelude.{
  ℕ, ◌+◌, ◌*◌, ◌-◌, Bool, true, false, not, ◌&&◌, ◌||◌, List, [], ◌∷◌, Option, none, some, Bytes,
  equal, ltb, leb, min, if◌then◌else◌,
}
use mysql_mcp_server.Prelude.Assoc.{Map, lookup, insert, delete}

-- `bucket`: the tokens in parts
pub record Bucket : Type 0 where
  pub tokens : ℕ
  pub last_update : ℕ

-- `RateLimiter`: `unit` parts make a token and `rate` parts come in a nanosecond
pub record RateLimiter : Type 0 where
  pub buckets : Map Bucket
  pub rate : ℕ
  pub unit : ℕ
  pub burst : ℕ
  pub cleanup : ℕ

-- five minutes
abbrev pub cleanup_interval : ℕ
cleanup_interval = 300000000000

-- `NewRateLimiter`
unfoldable pub new_rate_limiter : ℕ → ℕ → ℕ → RateLimiter
new_rate_limiter rate unit burst = record {
  buckets = [];
  rate = rate;
  unit = unit;
  burst = burst;
  cleanup = cleanup_interval;
}

abbrev pub put : Bytes → Bucket → RateLimiter → RateLimiter
put ip b rl = record rl { buckets = insert ip b rl.buckets }

-- the tokens of a bucket after the refill, capped at the burst
abbrev pub refilled : RateLimiter → ℕ → Bucket → ℕ
refilled rl now b = min (b.tokens + (now - b.last_update) * rl.rate) (rl.burst * rl.unit)

-- A bucket that is there: refill, then take a token if there is one.
unfoldable pub draw : Bytes → ℕ → Bucket → RateLimiter → Bool × RateLimiter
unfolding insert
draw ip now b rl =
    let t = refilled rl now b in
    if leb rl.unit t
    then (true, put ip (record { tokens = t - rl.unit; last_update = now }) rl)
    else (false, put ip (record { tokens = t; last_update = now }) rl)

-- `Allow`. A new client's bucket has one token less than the burst; with a burst of zero that is
-- -1 in the source, and the 0 here never comes to a token either.
unfoldable pub allow : Bytes → ℕ → RateLimiter → Bool × RateLimiter
unfolding lookup insert draw
allow ip now rl = elim (lookup ip rl.buckets) [
  | none ↦ (true, put ip (record { tokens = rl.burst * rl.unit - rl.unit; last_update = now }) rl)
  | some b ↦ draw ip now b rl
]

-- the loop of `cleanup_stale`: what was last used before the threshold, `now - cleanup`, goes
unfoldable pub fresh : ℕ → ℕ → Map Bucket → Map Bucket
unfolding delete
fresh now interval [] = []
fresh now interval ((ip, b) ∷ m) =
    let rest = fresh now interval m in
    if ltb (b.last_update + interval) now then delete ip rest else (ip, b) ∷ rest

-- `cleanup_stale`
unfoldable pub cleanup_stale : ℕ → RateLimiter → RateLimiter
unfolding fresh
cleanup_stale now rl = record rl { buckets = fresh now rl.cleanup rl.buckets }

-- What happens to a limiter: a request, or a tick of `cleanupLoop`.
pub data Event : Type 0 where
  request : Bytes → ℕ → Event
  tick : ℕ → Event

abbrev pub time : Event → ℕ
time (request ip t) = t
time (tick t) = t

unfoldable pub step : Event → RateLimiter → RateLimiter
unfolding allow cleanup_stale
step (request ip t) rl = (allow ip t rl).1
step (tick t) rl = cleanup_stale t rl

-- one if the event is a request of the client that is allowed
unfoldable pub granted : Bytes → Event → RateLimiter → ℕ
unfolding equal allow
granted ip (request j t) rl = if equal j ip && (allow j t rl).0 then 1 else 0
granted ip (tick t) rl = 0

-- How many requests of a client are allowed in a run.
unfoldable pub grants : Bytes → List Event → RateLimiter → ℕ
unfolding granted step
grants ip [] rl = 0
grants ip (e ∷ es) rl = granted ip e rl + grants ip es (step e rl)
