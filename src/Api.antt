-- ===== src/Api.antt =====
-- lib/api-helpers.ts: what the endpoints share. NextAuth's session is an argument, the id of its user.
use one_crew.Common.{ℕ, String, Option, none, some, str_eq, if◌then◌else◌, leb}
use one_crew.RateLimit.{RateLimitConfig, allowed, denied, Limiter, ceil_div, rate_limit}

-- `requireSession`: the user of the session, if there is one with a non-empty id.
unfoldable pub require_session : Option String → Option String
require_session none = none
require_session (some id) = if str_eq id "" then none else some id

abbrev pub at_least_one : ℕ → ℕ
at_least_one n = if leb 1 n then n else 1

-- `enforceRateLimit`: the seconds of `Retry-After` on a refusal.
unfoldable pub enforce_rate_limit :
    Limiter → String → String → RateLimitConfig → ℕ → Option ℕ × Limiter
enforce_rate_limit l scope user config now = elim (rate_limit l scope user config now).0 [
  | allowed n ↦ (none, (rate_limit l scope user config now).1)
  | denied ms ↦ (some (at_least_one (ceil_div ms 1_000)), (rate_limit l scope user config now).1)
]
