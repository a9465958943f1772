-- ===== src/Budget/Tests.antt =====
-- The tracker at concrete calls, and the theorems about it.
use one_crew.Common.{◌≡◌, refl, false, [], ◌∷◌, arith}
use one_crew.Budget.{
  not_finite, natural, BudgetEnv, UsageSample, at_most, next_utc_midnight, new_budget,
  rollover_if_needed, spend, track, track_other, get_stats, should_pause_cycle, estimate_cost,
}
use one_crew.Budget.Day.{tracks, tracks_other, after, after_all, charges_on, day, day_accounted}

tracker : Unit {0}
unfolding next_utc_midnight new_budget rollover_if_needed spend track track_other get_stats
    should_pause_cycle estimate_cost after after_all
tracker = tt

-- Five dollars a day, and 1.07 and 1.10 dollars for a million tokens.
abbrev env : BudgetEnv
env = record {
  limit = at_most 5_000_000_000_000;
  input_price = 1_070_000;
  output_price = 1_100_000;
}

abbrev sample : UsageSample
sample = record { input_tokens = natural 1_000_000; output_tokens = not_finite }

a_call :
    track env sample 5 (new_budget 0)
    ≡ (false, record { today = 1_070_000_000_000; reset_at = 86_400_000 })
unfolding tracker
a_call = refl

day_accounted_example :
    (get_stats env 86_400_009 (
      after_all env
        (tracks sample 5 ∷ tracks_other (natural 7) 86_400_001 ∷ [])
        (new_budget 0))).0.today
    ≡ charges_on env (day 86_400_009) (tracks sample 5 ∷ tracks_other (natural 7) 86_400_001 ∷ [])
day_accounted_example =
    day_accounted env (tracks sample 5 ∷ tracks_other (natural 7) 86_400_001 ∷ []) 0 86_400_009
      (omega arith)
