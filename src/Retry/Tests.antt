-- ===== src/Retry/Tests.antt =====
-- A call that fails once.
use one_crew.Common.{ℕ, zero, suc, ◌+◌, ◌*◌, ◌≤◌, none, [], arith}
use one_crew.Common.Texts.{Attempt, returns, throws}
use one_crew.Bridge.{ChatCompletion}
use one_crew.Bridge.Codec.{codec}
use one_crew.Retry.{call_with_retry}
use one_crew.Retry.Attempts.{Outcomes, sum, retry_outcome}

abbrev busy_once : ℕ → Attempt ChatCompletion
busy_once zero = throws "overloaded"
busy_once (suc n) = returns (record { id = "r"; model = "m"; choices = []; usage = none })

retry_outcome_example :
    Outcomes codec (λ n. 20) busy_once 3 0 (call_with_retry codec (λ n. 20) busy_once)
    × (sum (call_with_retry codec (λ n. 20) busy_once).1 ≤ 3_500 + 3 * 20)
retry_outcome_example = retry_outcome codec (λ n. 20) busy_once 20 (λ n. omega arith)
