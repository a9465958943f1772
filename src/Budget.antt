-- ===== src/Budget.antt =====
-- lib/ai/budget.ts: the daily budget of the AI calls.
--
-- Money is counted in units of 10^-12 USD, in which the price of a token is a natural number when the
-- price of a million tokens is one in millionths of a dollar; the source counts dollars in floating
-- point. The price table per model is empty in the source, so that the default prices always apply.
-- Times are milliseconds since the epoch; `new Date()` is an argument.
pub mod Day
pub mod Breaker
mod Tests
use one_crew.Common.{
  ℕ, ◌+◌, ◌*◌, ◌/◌, Bool, true, false, ltb, leb, ◌==◌, if◌then◌else◌, List, [], ◌∷◌,
}

-- A number as a usage payload or a configuration may hold it.
pub data JsNumber : Type 0 where
  not_finite : JsNumber
  negative : ℕ → JsNumber
  natural : ℕ → JsNumber

-- `AI_DAILY_BUDGET_USD`: not negative, and possibly `Infinity`.
pub data Limit : Type 0 where
  unlimited : Limit
  at_most : ℕ → Limit

-- The limit, and the price of one input and one output token.
pub record BudgetEnv : Type 0 where
  pub limit : Limit
  pub input_price : ℕ
  pub output_price : ℕ

pub record UsageSample : Type 0 where
  pub input_tokens : JsNumber
  pub output_tokens : JsNumber

pub record Budget : Type 0 where
  pub today : ℕ
  pub reset_at : ℕ

pub record BudgetStats : Type 0 where
  pub today : ℕ
  pub limit : Limit
  pub reset_at : ℕ

abbrev pub day_ms : ℕ
day_ms = 86_400_000

-- `Number.isFinite(n) ? Math.max(0, n) : 0`
abbrev pub clamped : JsNumber → ℕ
clamped not_finite = 0
clamped (negative n) = 0
clamped (natural n) = n

unfoldable pub estimate_cost : BudgetEnv → UsageSample → ℕ
estimate_cost env usage =
    clamped usage.input_tokens * env.input_price + clamped usage.output_tokens * env.output_price

-- `next.setUTCHours(24, 0, 0, 0)`
unfoldable pub next_utc_midnight : ℕ → ℕ
next_utc_midnight now = (now / day_ms + 1) * day_ms

unfoldable pub new_budget : ℕ → Budget
unfolding next_utc_midnight
new_budget now = record { today = 0; reset_at = next_utc_midnight now }

unfoldable pub rollover_if_needed : ℕ → Budget → Budget
rollover_if_needed now b =
    if leb b.reset_at now then record { today = 0; reset_at = next_utc_midnight now } else b

-- `todayUSD > AI_DAILY_BUDGET_USD`
abbrev pub exceeds : ℕ → Limit → Bool
exceeds today unlimited = false
exceeds today (at_most limit) = ltb limit today

-- Add a cost: the result says whether `AI_BUDGET_EXCEEDED` is thrown.
unfoldable pub spend : BudgetEnv → ℕ → ℕ → Budget → Bool × Budget
spend env cost now b =
    let b' = rollover_if_needed now b in
    let after = b'.today + cost in (exceeds after env.limit, record b' { today = after })

unfoldable pub track : BudgetEnv → UsageSample → ℕ → Budget → Bool × Budget
unfolding spend
track env usage now b = spend env (estimate_cost env usage) now b

unfoldable pub track_other : BudgetEnv → JsNumber → ℕ → Budget → Bool × Budget
unfolding spend
track_other env usd now b = spend env (clamped usd) now b

unfoldable pub get_stats : BudgetEnv → ℕ → Budget → BudgetStats × Budget
get_stats env now b =
    let b' = rollover_if_needed now b in
    (record { today = b'.today; limit = env.limit; reset_at = b'.reset_at }, b')

-- `Math.min(1, Math.max(0.5, safetyPercent))`, in hundredths.
abbrev pub clamp_percent : ℕ → ℕ
clamp_percent p = if ltb p 50 then 50 else if ltb 100 p then 100 else p

-- `todayUSD >= limit * clamped`, where the limit is finite and positive.
abbrev pub reaches : ℕ → ℕ → Limit → Bool
reaches today percent unlimited = false
reaches today percent (at_most limit) =
    if limit == 0 then false else leb (limit * clamp_percent percent) (today * 100)

unfoldable pub should_pause_cycle : BudgetEnv → ℕ → ℕ → Budget → Bool × Budget
should_pause_cycle env percent now b =
    let b' = rollover_if_needed now b in (reaches b'.today percent env.limit, b')

unfoldable pub reset : ℕ → Budget → Budget
reset now b = record { today = 0; reset_at = next_utc_midnight now }
