-- ===== src/RateLimit/Sweep.antt =====
-- The eviction of idle buckets is invisible: an evicted bucket had filled up again.
use one_crew.Common.{ℕ, ◌≤◌, ◌≡◌, refl, Option, none, some, String, arith}
use one_crew.Common.Dict.{
  get, HasDistinctKeys, unless_dropped, get-delete_where, delete_where-HasDistinctKeys,
}
use one_crew.RateLimit.{
  RateLimitConfig, Bucket, Limiter, is_idle, idle_evict_ms, sweep_if_needed, refill,
}
use one_crew.RateLimit.Refill.{available, available-idle}

unless_dropped-available :
    (c : RateLimitConfig) (now t : ℕ) (o : Option Bucket)
    → now ≤ t
    → c.window_ms ≤ idle_evict_ms
    → available c t (unless_dropped (is_idle now) o) ≡ available c t o
unfolding available refill
unless_dropped-available c now t none h w = refl
unless_dropped-available c now t (some b) h w = ground (arith, available-idle c t b)

-- A sweep at `now` changes what no request of any key finds at `now` or later, provided that a
-- window is not longer than the idle time.
pub available-sweep_if_needed :
    (c : RateLimitConfig) (now t : ℕ) (k : String) (s : Limiter)
    → HasDistinctKeys s.buckets
    → now ≤ t
    → c.window_ms ≤ idle_evict_ms
    → available c t (get k (sweep_if_needed now s).buckets) ≡ available c t (get k s.buckets)
unfolding sweep_if_needed
available-sweep_if_needed c now t k s d h w = ground (
  arith,
  get-delete_where (is_idle now) k s.buckets d,
  unless_dropped-available c now t (get k s.buckets) h w,
)

pub sweep_if_needed-HasDistinctKeys :
    (now : ℕ) (s : Limiter)
    → HasDistinctKeys s.buckets
    → HasDistinctKeys (sweep_if_needed now s).buckets
unfolding sweep_if_needed
sweep_if_needed-HasDistinctKeys now s d =
    ground (arith, delete_where-HasDistinctKeys (is_idle now) s.buckets d)
