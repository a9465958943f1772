-- ===== src/RateLimit.antt =====
-- lib/ratelimit.ts: the in-process token-bucket rate limiter.
--
-- Times are milliseconds in ℕ, and a limit has natural `capacity` and `windowMs`. The source counts
-- tokens in floating point; here `tokens` counts in units of 1/windowMs, so that a full bucket holds
-- capacity * windowMs, a request costs windowMs and a millisecond brings capacity: the arithmetic is
-- exact. A bucket key is met with one limit only, as every call site of the source does.
pub mod Refill
pub mod Sweep
pub mod Admission
pub mod Retry
pub mod Burst
mod Tests
use one_crew.Common.{
  ℕ, ◌+◌, ◌-◌, ◌*◌, ◌/◌, min, String, Bool, true, false, ◌||◌, Option, none, some, length, ltb, leb,
  ◌==◌, if◌then◌else◌,
}
use one_crew.Common.Dict.{Dict, get, set, delete_where}
use Prim.Native.String

pub record RateLimitConfig : Type 0 where
  pub capacity : ℕ
  pub window_ms : ℕ

pub data Remaining : Type 0 where
  finite : ℕ → Remaining
  infinite : Remaining

pub data RateLimitVerdict : Type 0 where
  allowed : Remaining → RateLimitVerdict
  denied : ℕ → RateLimitVerdict

pub record Bucket : Type 0 where
  pub tokens : ℕ
  pub updated_at : ℕ

-- The module's variables `buckets` and `sweepInProgress`.
pub record Limiter : Type 0 where
  pub buckets : Dict Bucket
  pub sweep_in_progress : Bool

-- `RateLimits.*`
abbrev pub write_limit : RateLimitConfig
write_limit = record { capacity = 30; window_ms = 60_000 }

abbrev pub message_limit : RateLimitConfig
message_limit = record { capacity = 60; window_ms = 60_000 }

abbrev pub approval_limit : RateLimitConfig
approval_limit = record { capacity = 20; window_ms = 60_000 }

abbrev pub read_heavy_limit : RateLimitConfig
read_heavy_limit = record { capacity = 120; window_ms = 60_000 }

abbrev pub sweep_threshold : ℕ
sweep_threshold = 4096

abbrev pub idle_evict_ms : ℕ
idle_evict_ms = 300_000

-- `bucket.updatedAt < now - IDLE_EVICT_MS`, with the subtraction moved to the other side.
abbrev pub is_idle : ℕ → Bucket → Bool
is_idle now bucket = ltb (bucket.updated_at + idle_evict_ms) now

unfoldable pub sweep_if_needed : ℕ → Limiter → Limiter
sweep_if_needed now s =
    if ltb (length s.buckets) sweep_threshold || s.sweep_in_progress
    then s
    else record { buckets = delete_where (is_idle now) s.buckets; sweep_in_progress = false }

-- `${scope}:${key}`
unfoldable pub bucket_key : String → String → String
bucket_key scope key = String.◌++◌ scope (String.◌++◌ ":" key)

-- The bucket that a request finds: a new full one, or the old one with what the time has brought.
unfoldable pub refill : RateLimitConfig → ℕ → Option Bucket → Bucket
refill config now none = record { tokens = config.capacity * config.window_ms; updated_at = now }
refill config now (some bucket) = record {
  tokens =
      min (config.capacity * config.window_ms)
        (bucket.tokens + (now - bucket.updated_at) * config.capacity);
  updated_at = now;
}

abbrev pub ceil_div : ℕ → ℕ → ℕ
ceil_div a b = (a + (b - 1)) / b

-- Take one token, or say how long to wait for one.
unfoldable pub consume : RateLimitConfig → Bucket → RateLimitVerdict × Bucket
consume config bucket =
    if leb config.window_ms bucket.tokens
    then (
      allowed (finite ((bucket.tokens - config.window_ms) / config.window_ms)),
      record bucket { tokens = bucket.tokens - config.window_ms },
    )
    else (denied (ceil_div (config.window_ms - bucket.tokens) config.capacity), bucket)

unfoldable pub rate_limit :
    Limiter → String → String → RateLimitConfig → ℕ → RateLimitVerdict × Limiter
rate_limit s scope key config now =
    if config.capacity == 0 || config.window_ms == 0
    then (allowed infinite, s)
    else let k = bucket_key scope key in
      let (verdict, bucket) = consume config (refill config now (get k s.buckets)) in
      (verdict, sweep_if_needed now (record s { buckets = set k bucket s.buckets }))
