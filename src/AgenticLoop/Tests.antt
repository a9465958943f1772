-- ===== src/AgenticLoop/Tests.antt =====
-- Schedules of the loop, and the theorems about it at concrete ones.
use one_crew.Common.{◌+◌, ◌≤◌, ◌≡◌, refl, false, none, [], ◌∷◌, List, length, if◌then◌else◌}
use one_crew.Common.Dict.{get, set, delete_where}
use one_crew.Common.TextSet.{has, add, remove}
use one_crew.WakeChain.{
  WakeContext, WakeEnv, sweep_idle, check_pair_and_record, pair_key_of, authorize_wake,
}
use one_crew.WakeChain.Runs.{Wake}
use one_crew.AgenticLoop.{found, failed, LoopState, begin, gate, answered, settled, tick, on_wakeup}
use one_crew.AgenticLoop.Steps.{here, next, ticks, answers, settles, idle, cycles}
use one_crew.AgenticLoop.Cleanup.{no_leaked_mark}
use one_crew.AgenticLoop.Exclusion.{SpacedReach, begins, one_cycle_when_spaced}
use one_crew.AgenticLoop.Race.{overlapped, two_cycles_race}
use one_crew.AgenticLoop.Wakeups.{on_wakeups, chain_invocation_bound}

loop : Unit {0}
unfolding has add remove begin gate answered settled tick
loop = tt

abbrev human : WakeContext
human = record { chain_id = "c1"; hop = 0; origin_user_id = "mia"; from_ai_user_id = none }

-- One tick over two AIs; the first runs its cycle to the end, the second is blocked by an approval.
abbrev after_cycle : LoopState
after_cycle =
    answered 0 (found 1) false
      (settled 1 (answered 0 (found 0) false (tick ("ada" ∷ "hopper" ∷ []) idle)))

cycle_ends : after_cycle ≡ idle
unfolding loop
cycle_ends = refl

no_leaked_mark_example : has "ada" after_cycle.in_flight ≡ false
unfolding loop
no_leaked_mark_example =
    no_leaked_mark after_cycle "ada"
      (next
        (next (next (next here (ticks ("ada" ∷ "hopper" ∷ []))) (answers 0 (found 0) false))
          (settles 1))
        (answers 0 (found 1) false))
      refl

abbrev running : LoopState
running = answered 0 (found 0) false (begin "ada" none idle)

one_cycle_when_spaced_example :
    (cycles "ada" running.waiting ≤ 1)
    × (cycles "ada" running.waiting ≡ (if has "ada" running.in_flight then 1 else 0))
one_cycle_when_spaced_example = one_cycle_when_spaced running "ada" (
    SpacedReach.next (SpacedReach.next SpacedReach.here (begins "ada" none refl))
      (one_crew.AgenticLoop.Exclusion.SpacedStep.answers 0 (found 0) false))

two_cycles_race_example :
    (cycles "ada" (overlapped "ada" human human []).waiting ≡ 2)
    × (cycles "ada" (settled 0 (overlapped "ada" human human [])).waiting ≡ 1)
    × (has "ada" (settled 0 (overlapped "ada" human human [])).in_flight ≡ false)
unfolding has
two_cycles_race_example = two_cycles_race "ada" human human [] refl

abbrev tight : WakeEnv
tight = record { max_hops = 2; max_pair_repeats = 1; max_chain_activations = 1 }

abbrev mentions : List Wake
mentions =
    record { to = "ada"; ctx = human; now = 5 }
    ∷ record { to = "hopper"; ctx = human; now = 5 }
    ∷ []

chain_invocation_bound_example : length (on_wakeups tight ([], idle) mentions).1.waiting ≤ 0 + 1
unfolding get set delete_where sweep_idle check_pair_and_record pair_key_of authorize_wake
chain_invocation_bound_example =
    chain_invocation_bound tight "c1" mentions [] idle tt (refl, (refl, tt)) refl (refl, (refl, tt))
