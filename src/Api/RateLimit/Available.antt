-- ===== src/Api/RateLimit/Available.antt =====
-- What a client can use of its bucket, and how each event changes that.
use mysql_mcp_server.Prelude.{
  ℕ, ◌+◌, ◌*◌, ◌-◌, ◌≤◌, ◌<◌, ◌≡◌, ◌∙◌, ap, sym, subst, refl, true, false, [], ◌∷◌, Option, none,
  some, arith, Bytes, equal, equal_iff, equal_refl, ltb, leb, if◌then◌else◌, inl, inr, Bool-cases,
  Option-cases,
}
use native.Mathlib.Nat.{add-mul, mul-le-mul_right}
use mysql_mcp_server.Prelude.Assoc.{Map, lookup, lookup-insert, lookup-delete}
use mysql_mcp_server.Api.RateLimit.{
  Bucket, RateLimiter, Event, request, tick, time, put, refilled, draw, allow, fresh, cleanup_stale,
  step, granted,
}

unfoldable pub available_in : RateLimiter → ℕ → Option Bucket → ℕ
available_in rl now none = rl.burst * rl.unit
available_in rl now (some b) = refilled rl now b

-- What the client could use at a time.
unfoldable pub available : Bytes → ℕ → RateLimiter → ℕ
unfolding lookup available_in
available ip now rl = available_in rl now (lookup ip rl.buckets)

-- Buckets from the past, a burst of one at least, and a cleanup that only takes full buckets.
pub record IsLimiter (now : ℕ) (rl : RateLimiter) : Type 0 where
  pub some_burst : 1 ≤ rl.burst
  pub refills : rl.burst * rl.unit ≤ rl.cleanup * rl.rate
  pub past : (ip : Bytes) (b : Bucket) → lookup ip rl.buckets ≡ some b → b.last_update ≤ now

-- What is left of a client's bucket by the cleanup.
kept : ℕ → ℕ → Option Bucket → Option Bucket
kept now interval none = none
kept now interval (some b) = if ltb (b.last_update + interval) now then none else some b

lookup-fresh :
    (ip : Bytes) (now interval : ℕ) (m : Map Bucket)
    → lookup ip (fresh now interval m) ≡ kept now interval (lookup ip m)
unfolding lookup fresh kept
lookup-fresh ip now interval [] = refl
lookup-fresh ip now interval ((j, b) ∷ m) = ground (
  arith,
  equal_iff j ip,
  lookup-delete j ip (fresh now interval m),
  lookup-fresh ip now interval m,
)

pub split-times : (r s t u : ℕ) → u ≤ s → s ≤ t → (t - u) * r ≡ (t - s) * r + (s - u) * r
split-times r s t u l k =
    ap (λ n. n * r) (let e : t - u ≡ (t - s) + (s - u) = omega arith in e)
    ∙ add-mul (t - s) (s - u) r

refilled-later :
    (s t : ℕ) (b : Bucket) (rl : RateLimiter)
    → b.last_update ≤ s
    → s ≤ t
    → refilled rl t b ≤ refilled rl s b + (t - s) * rl.rate
refilled-later s t b rl k l = omega (arith, split-times rl.rate s t b.last_update k l)

-- Time passing adds what the rate gives.
pub available_in-later :
    (s t : ℕ) (rl : RateLimiter) (o : Option Bucket)
    → ((b : Bucket) → o ≡ some b → b.last_update ≤ s)
    → s ≤ t
    → available_in rl t o ≤ available_in rl s o + (t - s) * rl.rate
unfolding available_in
available_in-later s t rl none h l = omega arith
available_in-later s t rl (some b) h l = refilled-later s t b rl (h b refl) l

available-put :
    (ip j : Bytes) (t : ℕ) (b : Bucket) (rl : RateLimiter)
    → available ip t (put j b rl)
      ≡ available_in rl t (if equal j ip then some b else lookup ip rl.buckets)
unfolding available available_in
available-put ip j t b rl = rw (lookup-insert j ip b rl.buckets) refl

no_time : (n r t : ℕ) → n + (t - t) * r ≡ n
no_time n r t = ap (λ d. n + d * r) (let e : t - t ≡ 0 = omega arith in e) ∙ omega arith

available-now :
    (ip : Bytes) (t n : ℕ) (rl : RateLimiter)
    → available ip t (put ip (record { tokens = n; last_update = t }) rl) ≤ n
unfolding available_in
available-now ip t n rl =
    rw (available-put ip ip t (record { tokens = n; last_update = t }) rl)
      (rw (equal_refl ip) (omega (arith, no_time n rl.rate t)))

spend-draw :
    (ip : Bytes) (t : ℕ) (b : Bucket) (rl : RateLimiter)
    → (if (draw ip t b rl).0 then 1 else 0) * rl.unit + available ip t (draw ip t b rl).1
      ≤ refilled rl t b
unfolding draw
spend-draw ip t b rl = elim (Bool-cases (leb rl.unit (refilled rl t b))) [
  | inl h ↦ rw h (ground (arith, available-now ip t (refilled rl t b - rl.unit) rl))
  | inr h ↦ rw h (ground (arith, available-now ip t (refilled rl t b) rl))
]

allow-none :
    (ip : Bytes) (t : ℕ) (rl : RateLimiter)
    → lookup ip rl.buckets ≡ none
    → allow ip t rl
      ≡ (true, put ip (record { tokens = rl.burst * rl.unit - rl.unit; last_update = t }) rl)
unfolding allow
allow-none ip t rl e = rw (e, allow) refl

allow-some :
    (ip : Bytes) (t : ℕ) (b : Bucket) (rl : RateLimiter)
    → lookup ip rl.buckets ≡ some b
    → allow ip t rl ≡ draw ip t b rl
unfolding allow
allow-some ip t b rl e = rw (e, allow) refl

-- A request spends what it uses.
spend :
    (ip : Bytes) (t : ℕ) (rl : RateLimiter) (o : Option Bucket)
    → lookup ip rl.buckets ≡ o
    → 1 ≤ rl.burst
    → granted ip (request ip t) rl * rl.unit + available ip t (step (request ip t) rl)
      ≤ available_in rl t o
unfolding granted step available_in
spend ip t rl none e l = rw (equal_refl ip) (
    rw (allow-none ip t rl e, step)
      (omega
        (arith, available-now ip t (rl.burst * rl.unit - rl.unit) rl, mul-le-mul_right rl.unit l)))
spend ip t rl (some b) e l =
    rw (equal_refl ip) (rw (allow-some ip t b rl e, step) (spend-draw ip t b rl))

-- A request of another client leaves this one's bucket.
other-draw :
    (ip j : Bytes) (t : ℕ) (b : Bucket) (rl : RateLimiter)
    → equal j ip ≡ false
    → available ip t (draw j t b rl).1 ≡ available ip t rl
unfolding draw available
other-draw ip j t b rl e = elim (Bool-cases (leb rl.unit (refilled rl t b))) [
  | inl h ↦ rw h (available-put ip j t _ rl ∙ rw e refl)
  | inr h ↦ rw h (available-put ip j t _ rl ∙ rw e refl)
]

other :
    (ip j : Bytes) (t : ℕ) (rl : RateLimiter)
    → equal j ip ≡ false
    → (granted ip (request j t) rl ≡ 0)
      × (available ip t (step (request j t) rl) ≡ available ip t rl)
unfolding granted step available
other ip j t rl e = elim (Option-cases (lookup j rl.buckets)) [
  | inl f ↦ (rw e refl, rw (allow-none j t rl f, step) (available-put ip j t _ rl ∙ rw e refl))
  | inr (b, f) ↦ (rw e refl, rw (allow-some j t b rl f, step) (other-draw ip j t b rl e))
]

long-refill : (r c t u : ℕ) → u + c < t → c * r ≤ (t - u) * r
long-refill r c t u l = mul-le-mul_right r (omega (arith, l))

-- The cleanup takes full buckets only.
kept-full :
    (t : ℕ) (rl : RateLimiter) (o : Option Bucket)
    → rl.burst * rl.unit ≤ rl.cleanup * rl.rate
    → available_in rl t (kept t rl.cleanup o) ≤ available_in rl t o
unfolding available_in kept
kept-full t rl none h = omega arith
kept-full t rl (some b) h = ground (arith, long-refill rl.rate rl.cleanup t b.last_update)

-- One event takes from what the client can use as much as it grants.
pub step-available :
    (ip : Bytes) (e : Event) (rl : RateLimiter)
    → IsLimiter (time e) rl
    → granted ip e rl * rl.unit + available ip (time e) (step e rl) ≤ available ip (time e) rl
unfolding available step granted cleanup_stale
step-available ip (request j t) rl v = elim (Bool-cases (equal j ip)) [
  | inl f ↦
      subst
        (λ k.
          granted ip (request k t) rl * rl.unit + available ip t (step (request k t) rl)
          ≤ available ip t rl)
        (sym ((equal_iff j ip).0 f)) (spend ip t rl (lookup ip rl.buckets) refl v.some_burst)
  | inr f ↦ let (g, a) = other ip j t rl f in rw g (omega (arith, a))
]
step-available ip (tick t) rl v =
    rw (lookup-fresh ip t rl.cleanup rl.buckets)
      (omega (arith, kept-full t rl (lookup ip rl.buckets) v.refills))

put-IsLimiter :
    (j : Bytes) (t n : ℕ) (rl : RateLimiter)
    → IsLimiter t rl
    → IsLimiter t (put j (record { tokens = n; last_update = t }) rl)
put-IsLimiter j t n rl v = record {
  some_burst = v.some_burst;
  refills = v.refills;
  past = λ ip b e.
      ground (
        arith,
        lookup-insert j ip (record { tokens = n; last_update = t }) rl.buckets,
        v.past ip b,
      );
}

draw-IsLimiter :
    (j : Bytes) (t : ℕ) (b : Bucket) (rl : RateLimiter)
    → IsLimiter t rl
    → IsLimiter t (draw j t b rl).1
unfolding draw
draw-IsLimiter j t b rl v = elim (Bool-cases (leb rl.unit (refilled rl t b))) [
  | inl h ↦ rw h (put-IsLimiter j t (refilled rl t b - rl.unit) rl v)
  | inr h ↦ rw h (put-IsLimiter j t (refilled rl t b) rl v)
]

kept-some :
    (t interval : ℕ) (o : Option Bucket) (b : Bucket) → kept t interval o ≡ some b → o ≡ some b
unfolding kept
kept-some t interval none b e = e
kept-some t interval (some d) b e = ground arith

pub step-IsLimiter :
    (e : Event) (rl : RateLimiter) → IsLimiter (time e) rl → IsLimiter (time e) (step e rl)
unfolding step cleanup_stale
step-IsLimiter (request j t) rl v = elim (Option-cases (lookup j rl.buckets)) [
  | inl f ↦
      subst (λ p. IsLimiter t p.1) (sym (allow-none j t rl f))
        (put-IsLimiter j t (rl.burst * rl.unit - rl.unit) rl v)
  | inr (b, f) ↦
      subst (λ p. IsLimiter t p.1) (sym (allow-some j t b rl f)) (draw-IsLimiter j t b rl v)
]
step-IsLimiter (tick t) rl v = record {
  some_burst = v.some_burst;
  refills = v.refills;
  past = λ ip b e. v.past ip b (
      kept-some t rl.cleanup (lookup ip rl.buckets) b
        (sym (lookup-fresh ip t rl.cleanup rl.buckets) ∙ e));
}

pub later-IsLimiter : (s t : ℕ) (rl : RateLimiter) → s ≤ t → IsLimiter s rl → IsLimiter t rl
later-IsLimiter s t rl l v = record {
  some_burst = v.some_burst;
  refills = v.refills;
  past = λ ip b e. omega (arith, v.past ip b e, l);
}

pub same_settings :
    (e : Event) (rl : RateLimiter) → ((step e rl).unit ≡ rl.unit) × ((step e rl).rate ≡ rl.rate)
unfolding step allow draw cleanup_stale
same_settings (request j t) rl = ground arith
same_settings (tick t) rl = (refl, refl)
