-- ===== src/RateLimit/Tests.antt =====
-- Runs of the limiter, and the theorems about it at concrete requests.
use one_crew.Common.{ℕ, ◌+◌, ◌-◌, ◌*◌, ◌≤◌, ◌≡◌, refl, false, [], ◌∷◌, ◌++◌, arith, replicate}
use one_crew.Common.Dict.{get, set, delete_where}
use one_crew.RateLimit.{
  RateLimitConfig, allowed, finite, infinite, Limiter, bucket_key, sweep_if_needed, refill, consume,
  rate_limit,
}
use one_crew.RateLimit.Admission.{IsUsable, Call, admitted, admitted_bound}
use one_crew.RateLimit.Burst.{window_overrun}

limiter : Unit {0}
unfolding get set delete_where bucket_key sweep_if_needed refill consume rate_limit admitted
limiter = tt

abbrev empty : Limiter
empty = record { buckets = []; sweep_in_progress = false }

abbrev slow : RateLimitConfig
slow = record { capacity = 2; window_ms = 1_000 }

abbrev ask : ℕ → Call
ask t = record { scope = "s"; key = "u"; config = slow; now = t }

-- Two requests pass, the third waits for half a window.
three_asks :
    ((rate_limit empty "s" "u" slow 7).0 ≡ allowed (finite 1))
    × (admitted "s:u" empty (ask 7 ∷ ask 7 ∷ ask 7 ∷ ask 506 ∷ ask 507 ∷ []) ≡ 3)
unfolding limiter
three_asks = (refl, refl)

misconfigured :
    rate_limit empty "s" "u" (record { capacity = 0; window_ms = 5 }) 7 ≡ (allowed infinite, empty)
unfolding limiter
misconfigured = refl

slow-IsUsable : IsUsable slow
slow-IsUsable = omega arith

abbrev spent : Limiter
spent = record {
  buckets = ("s:u", record { tokens = 500; updated_at = 7 }) ∷ [];
  sweep_in_progress = false;
}

admitted_bound_example :
    admitted "s:u" spent (ask 8 ∷ ask 600 ∷ []) * 1_000 ≤ 2 * (1_000 + (900 - 8))
unfolding get bucket_key
admitted_bound_example =
    admitted_bound slow slow-IsUsable "s:u" spent (ask 8 ∷ ask 600 ∷ []) 8 900 (refl, tt)
      (omega arith) ((λ e. refl), ((λ e. refl), tt))

window_overrun_example :
    admitted (bucket_key "s" "u") empty (replicate 2 (ask 7) ++ ask (7 + (1_000 - 1)) ∷ []) ≡ 2 + 1
unfolding get
window_overrun_example =
    window_overrun slow slow-IsUsable "s" "u" 7 empty tt refl (omega arith) (omega arith)
