-- ===== src/RateLimit/Retry.antt =====
-- The waiting time that a refused caller is told.
use one_crew.Common.{ℕ, zero, suc, ◌+◌, ◌-◌, ◌*◌, ◌≤◌, ◌<◌, ◌≡◌, sym, ◌∙◌, ◌↔◌, some, String, arith}
use one_crew.Common.Dict.{get, HasDistinctKeys}
use one_crew.RateLimit.{
  RateLimitConfig, denied, Bucket, Limiter, ceil_div, refill, consume, bucket_key, rate_limit,
}
use one_crew.RateLimit.Refill.{available, cost, consume-cost, mul_mono, refill-updated_at}
use one_crew.RateLimit.Admission.{IsUsable, rate_limit_verdict, available-rate_limit}

-- `ceil_div` is the least number of millisecond steps that bring `need`.
ceil_div-le : (need k r : ℕ) → 0 < k → (ceil_div need k ≤ r) ↔ (need ≤ r * k)
ceil_div-le need zero r h = elim h [ ]
ceil_div-le need (suc k) r h =
    ((λ e. grind (arith, mul_mono (ceil_div need (suc k)) r (suc k))), λ e. grind arith)

consume-denied :
    (c : RateLimitConfig) (b : Bucket) (wait : ℕ)
    → (consume c b).0 ≡ denied wait
    → (wait ≡ ceil_div (c.window_ms - b.tokens) c.capacity)
      × (b.tokens < c.window_ms)
      × ((consume c b).1 ≡ b)
unfolding consume
consume-denied c b wait h = ground arith

-- Whether a bucket that was left with too little holds a token `later` milliseconds afterwards.
refills_iff :
    (c : RateLimitConfig) (b : Bucket) (now later : ℕ)
    → IsUsable c
    → b.updated_at ≡ now
    → b.tokens < c.window_ms
    → (c.window_ms ≤ available c (now + later) (some b))
      ↔ (ceil_div (c.window_ms - b.tokens) c.capacity ≤ later)
unfolding available refill
refills_iff c b now later usable at_now h =
    let (to, from) = ceil_div-le (c.window_ms - b.tokens) c.capacity later usable.capacity_pos in
    let whole = mul_mono 1 c.capacity c.window_ms usable.capacity_pos in
    let passed : now + later - b.updated_at ≡ later = omega arith in
    rw passed (λ e. from (omega arith), λ e. omega (arith, to e, whole))

-- Under a usable limit, after a refusal that says `wait`, the next request of the same caller,
-- `later` milliseconds afterwards, is let through exactly when it has waited that long.
pub retry_after_exact :
    (s : Limiter) (scope key : String) (c : RateLimitConfig) (now later wait : ℕ)
    → IsUsable c
    → HasDistinctKeys s.buckets
    → (rate_limit s scope key c now).0 ≡ denied wait
    → (cost (rate_limit (rate_limit s scope key c now).1 scope key c (now + later)).0 ≡ 1)
      ↔ (wait ≤ later)
unfolding available
retry_after_exact s scope key c now later wait usable d h =
    let k = bucket_key scope key in
    let s' = (rate_limit s scope key c now).1 in
    let b = refill c now (get k s.buckets) in
    let (e, short, same) =
      consume-denied c b wait (sym (rate_limit_verdict c usable s scope key now) ∙ h) in
    let there : (c.window_ms ≤ available c (now + later) (get k s'.buckets)) ↔ (wait ≤ later) =
      rw (available-rate_limit c usable s scope key now (now + later) d (omega arith), same, e)
        (refills_iff c b now later usable (refill-updated_at c now (get k s.buckets)) short) in
    let (paid, let_through) = consume-cost c (refill c (now + later) (get k s'.buckets)) in
    rw (rate_limit_verdict c usable s' scope key (now + later))
      (λ x. there.0 (paid x), λ x. let_through (there.1 x))
