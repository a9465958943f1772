-- ===== src/RateLimit/Refill.antt =====
-- What a bucket has to spend at a given time.
use one_crew.Common.{ℕ, ◌∙◌, ◌↔◌, ◌+◌, ◌-◌, ◌*◌, ◌≤◌, ◌≡◌, refl, Option, none, some, arith}
use one_crew.RateLimit.{RateLimitConfig, RateLimitVerdict, allowed, denied, Bucket, refill, consume}

pub mul_mono : (a b k : ℕ) → a ≤ b → a * k ≤ b * k
mul_mono a b k h = grind arith

mul_spread : (a b c k : ℕ) → a ≤ b + c → a * k ≤ b * k + c * k
mul_spread a b c k h = omega (arith, mul_mono a (b + c) k h)

-- The tokens that a request at time `now` finds, in units of 1/windowMs.
unfoldable pub available : RateLimitConfig → ℕ → Option Bucket → ℕ
available c now o = (refill c now o).tokens

pub available-le_full :
    (c : RateLimitConfig) (now : ℕ) (o : Option Bucket)
    → available c now o ≤ c.capacity * c.window_ms
unfolding available refill
available-le_full c now none = omega arith
available-le_full c now (some b) = omega arith

-- Time brings `capacity` units a millisecond at most.
pub available-later :
    (c : RateLimitConfig) (t u : ℕ) (o : Option Bucket)
    → t ≤ u
    → available c u o ≤ available c t o + (u - t) * c.capacity
unfolding available refill
available-later c t u none h = omega arith
available-later c t u (some b) h =
    omega (arith, mul_spread (u - b.updated_at) (t - b.updated_at) (u - t) c.capacity (omega arith))

-- A bucket that was idle for a whole window is full again.
pub available-idle :
    (c : RateLimitConfig) (t : ℕ) (b : Bucket)
    → b.updated_at + c.window_ms ≤ t
    → available c t (some b) ≡ c.capacity * c.window_ms
unfolding available refill
available-idle c t b h =
    omega (arith, mul_mono c.window_ms (t - b.updated_at) c.capacity (omega arith))

-- 1 for a request that is let through.
abbrev pub cost : RateLimitVerdict → ℕ
cost (allowed _) = 1
cost (denied _) = 0

-- Taking a token is paid for in full, and a refusal costs nothing.
pub consume-spends :
    (c : RateLimitConfig) (b : Bucket)
    → (consume c b).1.tokens + cost (consume c b).0 * c.window_ms ≡ b.tokens
unfolding consume
consume-spends c b = ground arith

pub consume-updated_at :
    (c : RateLimitConfig) (b : Bucket) → (consume c b).1.updated_at ≡ b.updated_at
unfolding consume
consume-updated_at c b = ground arith

pub refill-updated_at :
    (c : RateLimitConfig) (now : ℕ) (o : Option Bucket) → (refill c now o).updated_at ≡ now
unfolding refill
refill-updated_at c now none = refl
refill-updated_at c now (some b) = refl

pub available-le_brought :
    (c : RateLimitConfig) (t : ℕ) (b : Bucket)
    → available c t (some b) ≤ b.tokens + (t - b.updated_at) * c.capacity
unfolding available refill
available-le_brought c t b = omega arith

-- Consuming from a bucket that was refilled at `now`, seen at a later time.
pub available-consume :
    (c : RateLimitConfig) (now t : ℕ) (o : Option Bucket)
    → available c t (some (consume c (refill c now o)).1)
        + cost (consume c (refill c now o)).0 * c.window_ms
      ≤ available c now o + (t - now) * c.capacity
unfolding available
available-consume c now t o =
    let b = refill c now o in
    let same : (consume c b).1.updated_at ≡ now =
      consume-updated_at c b ∙ refill-updated_at c now o in
    omega (arith, rw same at (available-le_brought c t (consume c b).1), consume-spends c b)

-- A request is let through exactly when a whole token is there.
pub consume-cost :
    (c : RateLimitConfig) (b : Bucket) → (cost (consume c b).0 ≡ 1) ↔ (c.window_ms ≤ b.tokens)
unfolding consume
consume-cost c b = ground arith

pub no_time : (n k : ℕ) → (n - n) * k ≡ 0
no_time n k = let e : n - n ≡ 0 = omega arith in rw e (omega arith)
