-- ===== src/AgenticLoop/Exclusion.antt =====
-- When at most one cycle of an AI runs at a time.
use one_crew.Common.{
  ℕ, ◌+◌, ◌≤◌, ◌≡◌, refl, String, Bool, Option, List, arith, str_eq, eq_iff, inl, inr, take_at,
  Option-cases, if◌then◌else◌,
}
use one_crew.Common.TextSet.{has, has-add, has-remove}
use one_crew.WakeChain.{WakeContext}
use one_crew.AgenticLoop.{
  Invocation, asking, cycling, Pending, failed, found, LoopState, begin, gate, answered, settled,
}
use one_crew.AgenticLoop.Steps.{idle, cycles_of, cycles, asks_of, asks, total-concat, total-take_at}

-- A schedule in which `runForAI` is not called for an AI while an earlier call for it still waits for
-- the answer about its pending approvals.
pub data SpacedStep (s : LoopState) : LoopState → Type 0 where
  begins :
      (ai : String) (ctx : Option WakeContext)
      → asks ai s.waiting ≡ 0
      → SpacedStep s (begin ai ctx s)
  answers : (i : ℕ) (pending : Pending) (paused : Bool) → SpacedStep s (answered i pending paused s)
  settles : (i : ℕ) → SpacedStep s (settled i s)

pub data SpacedReach (s : LoopState) : LoopState → Type 0 where
  here : SpacedReach s s
  next : {t u : LoopState} → SpacedReach s t → SpacedStep t u → SpacedReach s u

-- One invocation of each AI at most, marked as in flight exactly while its cycle runs.
abbrev pub IsExclusive : LoopState → Type 0
IsExclusive s =
    (ai : String)
    → (cycles ai s.waiting + asks ai s.waiting ≤ 1)
      × (cycles ai s.waiting ≡ (if has ai s.in_flight then 1 else 0))

begin-IsExclusive :
    (ai : String) (ctx : Option WakeContext) (s : LoopState)
    → asks ai s.waiting ≡ 0
    → IsExclusive s
    → IsExclusive (begin ai ctx s)
unfolding begin
begin-IsExclusive ai ctx s none_asks h j = ground (
  arith,
  h j,
  h ai,
  eq_iff ai j,
  total-concat (cycles_of j) s.waiting (asking ai ctx),
  total-concat (asks_of j) s.waiting (asking ai ctx),
)

-- The invocation that asked is taken out of `waiting`, which leaves `rest`.
abbrev WasAsking : String → List Invocation → LoopState → Type 0
WasAsking ai rest s =
    (j : String)
    → (cycles j s.waiting ≡ cycles j rest)
      × (asks j s.waiting ≡ asks j rest + (if str_eq ai j then 1 else 0))

gate-IsExclusive :
    (pending : Pending) (paused : Bool) (ai : String) (ctx : Option WakeContext)
    (rest : List Invocation) (s : LoopState)
    → IsExclusive s
    → WasAsking ai rest s
    → IsExclusive (gate pending paused ai ctx rest s)
unfolding gate
gate-IsExclusive failed paused ai ctx rest s h was j = ground (arith, h j, was j)
gate-IsExclusive (found n) paused ai ctx rest s h was j = ground (
  arith,
  h j,
  was j,
  has-add j ai s.in_flight,
  total-concat (cycles_of j) rest (cycling ai ctx),
  total-concat (asks_of j) rest (cycling ai ctx),
)

answered-IsExclusive :
    (i : ℕ) (pending : Pending) (paused : Bool) (s : LoopState)
    → IsExclusive s
    → IsExclusive (answered i pending paused s)
unfolding answered
answered-IsExclusive i pending paused s h = elim (Option-cases (take_at i s.waiting)) [
  | inl missing ↦ rw (missing, answered) h
  | inr ((asking ai ctx, rest), got) ↦
      rw (got, answered)
        (gate-IsExclusive pending paused ai ctx rest s h (λ j. (
          omega (arith, total-take_at (cycles_of j) i s.waiting (asking ai ctx) rest got),
          total-take_at (asks_of j) i s.waiting (asking ai ctx) rest got,
        )))
  | inr ((cycling ai ctx, rest), got) ↦ rw (got, answered) h
]

settled-IsExclusive : (i : ℕ) (s : LoopState) → IsExclusive s → IsExclusive (settled i s)
unfolding settled
settled-IsExclusive i s h = elim (Option-cases (take_at i s.waiting)) [
  | inl missing ↦ rw (missing, settled) h
  | inr ((asking ai ctx, rest), got) ↦ rw (got, settled) h
  | inr ((cycling ai ctx, rest), got) ↦
      rw (got, settled)
        (λ j. ground (
          arith,
          h j,
          has-remove j ai s.in_flight,
          total-take_at (cycles_of j) i s.waiting (cycling ai ctx) rest got,
          total-take_at (asks_of j) i s.waiting (cycling ai ctx) rest got,
        ))
]

SpacedStep-IsExclusive : {s t : LoopState} → SpacedStep s t → IsExclusive s → IsExclusive t
SpacedStep-IsExclusive {s} (begins ai ctx quiet) h = begin-IsExclusive ai ctx s quiet h
SpacedStep-IsExclusive {s} (answers i pending paused) h = answered-IsExclusive i pending paused s h
SpacedStep-IsExclusive {s} (settles i) h = settled-IsExclusive i s h

SpacedReach-IsExclusive : {s t : LoopState} → SpacedReach s t → IsExclusive s → IsExclusive t
SpacedReach-IsExclusive here h = h
SpacedReach-IsExclusive (next r st) h = SpacedStep-IsExclusive st (SpacedReach-IsExclusive r h)

-- If `runForAI` is never called for an AI while an earlier call for it still waits for the answer
-- about its pending approvals, then from the start of the process at most one cycle of each AI runs
-- at a time, and the AI is marked as in flight exactly while it runs.
pub one_cycle_when_spaced :
    (s : LoopState) (ai : String)
    → SpacedReach idle s
    → (cycles ai s.waiting ≤ 1) × (cycles ai s.waiting ≡ (if has ai s.in_flight then 1 else 0))
unfolding has
one_cycle_when_spaced s ai r =
    let h = SpacedReach-IsExclusive r (λ j. (omega arith, refl)) in omega (arith, h ai)
