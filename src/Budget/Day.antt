-- ===== src/Budget/Day.antt =====
-- The day that a tally belongs to.
use one_crew.Common.{
  ℕ, ◌+◌, ◌*◌, ◌/◌, ◌%◌, ◌≤◌, ◌<◌, ◌≡◌, refl, ap, ◌∙◌, List, [], ◌∷◌, arith, ◌==◌, if◌then◌else◌,
}
use one_crew.Budget.{
  JsNumber, BudgetEnv, UsageSample, Budget, day_ms, clamped, estimate_cost, next_utc_midnight,
  new_budget, rollover_if_needed, track, track_other, get_stats, should_pause_cycle,
}

-- A call of the tracker, at a time.
pub data Use : Type 0 where
  tracks : UsageSample → ℕ → Use
  tracks_other : JsNumber → ℕ → Use
  asks_stats : ℕ → Use
  asks_pause : ℕ → ℕ → Use

abbrev pub time_of : Use → ℕ
time_of (tracks usage now) = now
time_of (tracks_other usd now) = now
time_of (asks_stats now) = now
time_of (asks_pause percent now) = now

-- What a use is charged.
abbrev pub charge : BudgetEnv → Use → ℕ
charge env (tracks usage now) = estimate_cost env usage
charge env (tracks_other usd now) = clamped usd
charge env (asks_stats now) = 0
charge env (asks_pause percent now) = 0

unfoldable pub after : BudgetEnv → Use → Budget → Budget
after env (tracks usage now) b = (track env usage now b).1
after env (tracks_other usd now) b = (track_other env usd now b).1
after env (asks_stats now) b = (get_stats env now b).1
after env (asks_pause percent now) b = (should_pause_cycle env percent now b).1

unfoldable pub after_all : BudgetEnv → List Use → Budget → Budget
after_all env [] b = b
after_all env (u ∷ us) b = after_all env us (after env u b)

-- Any use rolls the day over first, and then adds its charge.
pub after_lem :
    (env : BudgetEnv) (u : Use) (b : Budget)
    → after env u b ≡ record (rollover_if_needed (time_of u) b) {
      today = (rollover_if_needed (time_of u) b).today + charge env u;
    }
unfolding after track track_other get_stats should_pause_cycle
after_lem env (tracks usage now) b = refl
after_lem env (tracks_other usd now) b = refl
after_lem env (asks_stats now) b = ground arith
after_lem env (asks_pause percent now) b = ground arith

-- The day that a time belongs to, and the charges of the uses of one day.
abbrev pub day : ℕ → ℕ
day now = now / day_ms

abbrev pub charges_on : BudgetEnv → ℕ → List Use → ℕ
charges_on env d [] = 0
charges_on env d (u ∷ us) = (if day (time_of u) == d then charge env u else 0) + charges_on env d us

-- The uses come in the order of time.
abbrev pub IsTimed : ℕ → List Use → ℕ → Type 0
IsTimed start [] end = start ≤ end
IsTimed start (u ∷ us) end = (start ≤ time_of u) × IsTimed (time_of u) us end

next_utc_midnight_lem : (now : ℕ) → next_utc_midnight now ≡ (day now + 1) * day_ms
unfolding next_utc_midnight
next_utc_midnight_lem now = refl

-- The next midnight is after now, a day away at most, and a whole number of days after the epoch.
pub next_utc_midnight_bounds :
    (now : ℕ)
    → (now < next_utc_midnight now)
      × (next_utc_midnight now ≤ now + day_ms)
      × (next_utc_midnight now % day_ms ≡ 0)
unfolding next_utc_midnight
next_utc_midnight_bounds now = omega arith

-- The tally was last touched at time `t`.
abbrev pub IsOfDay : ℕ → Budget → Type 0
IsOfDay t b = b.reset_at ≡ (day t + 1) * day_ms

rollover-of_day :
    (t now : ℕ) (b : Budget)
    → IsOfDay t b
    → t ≤ now
    → rollover_if_needed now b ≡ record {
      today = if day t == day now then b.today else 0;
      reset_at = (day now + 1) * day_ms;
    }
unfolding rollover_if_needed next_utc_midnight
rollover-of_day t now b h le = ground arith

IsTimed-le : (start : ℕ) (us : List Use) (end : ℕ) → IsTimed start us end → start ≤ end
IsTimed-le start [] end h = h
IsTimed-le start (u ∷ us) end h = omega (arith, IsTimed-le (time_of u) us end h.1)

-- A tally carried from the day of `t` over `v` to the day of `end`.
split_days :
    (t v end old tally new rest : ℕ) {total : ℕ}
    → t ≤ v
    → v ≤ end
    → tally ≡ (if day t == day v then old else 0) + new
    → total ≡ (if day v == day end then tally else 0) + rest
    → total ≡ (if day t == day end then old else 0) + ((if day v == day end then new else 0) + rest)
split_days t v end old tally new rest h k e g = ground arith

after_all-today :
    (env : BudgetEnv) (us : List Use) (t end : ℕ) (b : Budget)
    → IsOfDay t b
    → IsTimed t us end
    → (get_stats env end (after_all env us b)).0.today
      ≡ (if day t == day end then b.today else 0) + charges_on env (day end) us
unfolding after_all get_stats
after_all-today env [] t end b h le = rw (rollover-of_day t end b h le) (omega arith)
after_all-today env (u ∷ us) t end b h (le, timed) =
    let v = time_of u in
    let rolled = rollover-of_day t v b h le in
    let b' = after env u b in
    let touched =
      after_lem env u b ∙ ap (λ (r : Budget). record r { today = r.today + charge env u }) rolled in
    let next_reset : b'.reset_at ≡ (day v + 1) * day_ms = ap (λ (x : Budget). x.reset_at) touched in
    let tally : b'.today ≡ (if day t == day v then b.today else 0) + charge env u =
      ap (λ (x : Budget). x.today) touched in
    let ih = after_all-today env us v end b' next_reset timed in
    split_days t v end b.today b'.today (charge env u) _ le (IsTimed-le v us end timed) tally ih

-- Whatever tokens and tool costs are charged to a new tally, in the order of time, and however
-- often it is read, what it shows at the end is exactly what was charged on the day of the end,
-- each charge once.
pub day_accounted :
    (env : BudgetEnv) (us : List Use) (start end : ℕ)
    → IsTimed start us end
    → (get_stats env end (after_all env us (new_budget start))).0.today
      ≡ charges_on env (day end) us
unfolding new_budget next_utc_midnight
day_accounted env us start end timed =
    ground (arith, after_all-today env us start end (new_budget start) refl timed)
