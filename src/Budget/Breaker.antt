-- ===== src/Budget/Breaker.antt =====
-- The circuit breaker and the gate in front of a cycle.
use one_crew.Common.{ℕ, ◌*◌, ◌≤◌, ◌<◌, ◌≡◌, refl, ◌∙◌, true, false, List, [], ◌∷◌, arith}
use one_crew.Budget.{
  BudgetEnv, Budget, Limit, unlimited, at_most, rollover_if_needed, spend, get_stats,
  should_pause_cycle, exceeds, reaches, clamp_percent,
}
use one_crew.Budget.Day.{Use, time_of, after, after_all, after_lem}

-- The uses fall before the time `midnight`.
abbrev pub IsBefore : ℕ → List Use → Type 0
IsBefore midnight [] = Unit
IsBefore midnight (u ∷ us) = (time_of u < midnight) × IsBefore midnight us

-- Before its reset time a tally only grows, and the reset time stays.
after-grows :
    (env : BudgetEnv) (u : Use) (b : Budget)
    → time_of u < b.reset_at
    → (b.today ≤ (after env u b).today) × ((after env u b).reset_at ≡ b.reset_at)
unfolding rollover_if_needed
after-grows env u b h = ground (arith, after_lem env u b)

after_all-grows :
    (env : BudgetEnv) (us : List Use) (b : Budget)
    → IsBefore b.reset_at us
    → (b.today ≤ (after_all env us b).today) × ((after_all env us b).reset_at ≡ b.reset_at)
unfolding after_all
after_all-grows env [] b h = (omega arith, refl)
after_all-grows env (u ∷ us) b (h, hs) =
    let (more, same) = after-grows env u b h in
    let (later, kept) = after_all-grows env us (after env u b) (rw same hs) in
    (omega arith, kept ∙ same)

mul_le : (k a b : ℕ) → a ≤ b → k * a ≤ k * b
mul_le k a b h = grind arith

clamp_percent_bounds : (p : ℕ) → (50 ≤ clamp_percent p) × (clamp_percent p ≤ 100)
clamp_percent_bounds p = ground arith

percent_bounds :
    (limit p : ℕ) → (limit * 50 ≤ limit * clamp_percent p) × (limit * clamp_percent p ≤ limit * 100)
percent_bounds limit p =
    let bounds = clamp_percent_bounds p in
    (mul_le limit 50 (clamp_percent p) bounds.0, mul_le limit (clamp_percent p) 100 bounds.1)

reaches-zero : (p : ℕ) (limit : Limit) → reaches 0 p limit ≡ false
reaches-zero p unlimited = refl
reaches-zero p (at_most limit) = ground (arith, percent_bounds limit p)

exceeds-reaches :
    (today more percent limit : ℕ) (l : Limit)
    → l ≡ at_most limit
    → exceeds today l ≡ true
    → today ≤ more
    → 0 < limit
    → reaches more percent l ≡ true
exceeds-reaches today more percent limit unlimited e h k pos = cc
exceeds-reaches today more percent limit (at_most n) e h k pos =
    ground (arith, percent_bounds n percent)

pub rollover_before : (now : ℕ) (b : Budget) → now < b.reset_at → rollover_if_needed now b ≡ b
unfolding rollover_if_needed
rollover_before now b h = ground arith

rolled_over : (now : ℕ) (b : Budget) → b.reset_at ≤ now → (rollover_if_needed now b).today ≡ 0
unfolding rollover_if_needed
rolled_over now b h = ground arith

spend-exceeds :
    (env : BudgetEnv) (cost now : ℕ) (b : Budget)
    → (spend env cost now b).0 ≡ true
    → exceeds (spend env cost now b).1.today env.limit ≡ true
unfolding spend
spend-exceeds env cost now b h = h

-- With a positive limit, once a call trips the breaker, every new cycle is held back until the
-- reset time, whatever is spent or asked before it and at whatever safety percentage.
pub breaker_holds_cycles :
    (env : BudgetEnv) (limit cost now later percent : ℕ) (us : List Use) (b : Budget)
    → env.limit ≡ at_most limit
    → 0 < limit
    → (spend env cost now b).0 ≡ true
    → IsBefore (spend env cost now b).1.reset_at us
    → later < (spend env cost now b).1.reset_at
    → (should_pause_cycle env percent later (after_all env us (spend env cost now b).1)).0 ≡ true
unfolding should_pause_cycle
breaker_holds_cycles env limit cost now later percent us b finite pos tripped before soon =
    let b' = (spend env cost now b).1 in
    let (more, same) = after_all-grows env us b' before in
    let kept : rollover_if_needed later (after_all env us b') ≡ after_all env us b' =
      rollover_before later (after_all env us b') (omega arith) in
    rw kept (
      exceeds-reaches b'.today (after_all env us b').today percent limit env.limit finite
        (spend-exceeds env cost now b tripped) more pos)

-- From the reset time on cycles run again, with no call of `track` in between, and the tally that is
-- shown is zero.
pub gate_releases :
    (env : BudgetEnv) (percent now : ℕ) (b : Budget)
    → b.reset_at ≤ now
    → ((should_pause_cycle env percent now b).0 ≡ false) × ((get_stats env now b).0.today ≡ 0)
unfolding should_pause_cycle get_stats
gate_releases env percent now b h = rw (rolled_over now b h) (reaches-zero percent env.limit, refl)
