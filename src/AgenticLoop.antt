-- ===== src/AgenticLoop.antt =====
-- lib/loop/agentic-loop.ts: the scheduler of the AI colleagues' decision cycles.
--
-- `runForAI` is asynchronous and gives up control at its two awaits. An invocation that is waiting is a
-- value of `Invocation`; a step of the loop is what the code runs between two awaits, and the order of
-- the steps is the event loop's. What an await delivers (the pending approvals or an error, the
-- budget's answer, the end of `AIRuntime.runCycle`) is an argument of the step that resumes.
pub mod Scheduler
pub mod Steps
pub mod Cleanup
pub mod Exclusion
pub mod Race
pub mod Wakeups
mod Tests
use one_crew.Common.{
  ℕ, String, Bool, ◌||◌, Option, none, some, List, [], ◌∷◌, ◌++◌, ltb, if◌then◌else◌, take_at,
}
use one_crew.Common.TextSet.{has, add, remove}
use one_crew.WakeChain.{WakeContext, WakeVerdict, ok, denied, WakeEnv, Chains, authorize_wake}

-- An invocation of `runForAI` that waits for `listPendingForAI`, or for `AIRuntime.runCycle`.
pub data Invocation : Type 0 where
  asking : String → Option WakeContext → Invocation
  cycling : String → Option WakeContext → Invocation

-- What `listPendingForAI` delivers: it throws, or gives a list of some length.
pub data Pending : Type 0 where
  failed : Pending
  found : ℕ → Pending

-- The module's set `inFlight`, and the invocations that wait.
pub record LoopState : Type 0 where
  pub in_flight : List String
  pub waiting : List Invocation

-- `runForAI(aiUserId, ctx)` up to its first await.
unfoldable pub begin : String → Option WakeContext → LoopState → LoopState
begin ai ctx s =
    if has ai s.in_flight then s else record s { waiting = s.waiting ++ asking ai ctx ∷ [] }

-- From the answer about pending approvals to the next await, or to a return.
unfoldable pub gate :
    Pending → Bool → String → Option WakeContext → List Invocation → LoopState → LoopState
gate failed paused ai ctx rest s = record s { waiting = rest }
gate (found count) paused ai ctx rest s =
    if ltb 0 count || paused
    then record s { waiting = rest }
    else record { in_flight = add ai s.in_flight; waiting = rest ++ cycling ai ctx ∷ [] }

-- The invocation at a position of `waiting` is answered. One that is not asking is left alone.
unfoldable pub answered : ℕ → Pending → Bool → LoopState → LoopState
unfolding gate
answered i pending paused s = elim (take_at i s.waiting) [
  | none ↦ s
  | some (inv, rest) ↦ elim inv [
    | asking ai ctx ↦ gate pending paused ai ctx rest s
    | cycling ai ctx ↦ s
  ]
]

-- `runCycle` ends, by a result or an error: both go through `finally`.
unfoldable pub settled : ℕ → LoopState → LoopState
settled i s = elim (take_at i s.waiting) [
  | none ↦ s
  | some (inv, rest) ↦ elim inv [
    | asking ai ctx ↦ s
    | cycling ai ctx ↦ record { in_flight = remove ai s.in_flight; waiting = rest }
  ]
]

-- `tick` calls `runForAI` for every active AI, without waiting in between.
unfoldable pub tick : List String → LoopState → LoopState
tick [] s = s
tick (ai ∷ ais) s = tick ais (begin ai none s)

-- The wakeup listener: the chokepoint first, then `void runForAI(aiUserId, ctx)`.
abbrev pub after_verdict :
    String → WakeContext → LoopState → WakeVerdict × Chains → Chains × LoopState
after_verdict ai ctx s (ok, chains) = (chains, begin ai (some ctx) s)
after_verdict ai ctx s (denied reason, chains) = (chains, s)

unfoldable pub on_wakeup :
    WakeEnv → String → WakeContext → ℕ → Chains × LoopState → Chains × LoopState
on_wakeup env ai ctx now (chains, s) =
    after_verdict ai ctx s (authorize_wake env chains ctx.from_ai_user_id ai ctx now)
