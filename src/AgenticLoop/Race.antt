-- ===== src/AgenticLoop/Race.antt =====
-- Two calls of `runForAI` for one AI that both pass the check of `inFlight` before either marks it.
use one_crew.Common.{◌≡◌, String, false, some, List, [], arith, eq_refl}
use one_crew.Common.TextSet.{has, add, has-remove}
use one_crew.WakeChain.{WakeContext}
use one_crew.AgenticLoop.{found, LoopState, begin, gate, answered, settled}
use one_crew.AgenticLoop.Steps.{cycles}

module _ (ai : String) (first second : WakeContext) (marks : List String) where
  -- Nothing runs; then two wakes come before the first answer, and then both answers: nothing pending,
  -- budget left.
  abbrev pub overlapped : LoopState
  overlapped = answered 0 (found 0) false (
      answered 0 (found 0) false (
        begin ai (some second)
          (begin ai (some first) (record { in_flight = marks; waiting = [] }))))

  -- From a state in which nothing runs and the AI is not marked, two wakes of it that both come
  -- before the database's first answer lead to two running cycles of it; and when one of them ends,
  -- the AI is not marked as in flight while the other cycle still runs.
  pub two_cycles_race :
      has ai marks ≡ false
      → (cycles ai overlapped.waiting ≡ 2)
        × (cycles ai (settled 0 overlapped).waiting ≡ 1)
        × (has ai (settled 0 overlapped).in_flight ≡ false)
  unfolding begin answered gate settled
  two_cycles_race unmarked = ground (arith, eq_refl ai, has-remove ai ai (add ai (add ai marks)))
