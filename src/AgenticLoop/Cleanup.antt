-- ===== src/AgenticLoop/Cleanup.antt =====
-- No AI stays marked as in flight: a mark always has a running cycle behind it.
use one_crew.Common.{
  ℕ, ◌<◌, ◌≡◌, String, Bool, true, false, Option, none, some, List, [], ◌∷◌, arith, inl, inr,
  take_at, Option-cases, Bool-cases,
}
use one_crew.Common.TextSet.{has, has-add, has-remove}
use one_crew.WakeChain.{WakeContext}
use one_crew.AgenticLoop.{
  Invocation, asking, cycling, Pending, failed, found, LoopState, begin, gate, answered, settled,
  tick,
}
use one_crew.AgenticLoop.Steps.{
  Step, ticks, wakes, answers, settles, Reach, here, next, idle, cycles_of, cycles, total-concat,
  total-take_at,
}

abbrev pub IsBacked : LoopState → Type 0
IsBacked s = (ai : String) → has ai s.in_flight ≡ true → 0 < cycles ai s.waiting

begin-IsBacked :
    (ai : String) (ctx : Option WakeContext) (s : LoopState)
    → IsBacked s
    → IsBacked (begin ai ctx s)
unfolding begin
begin-IsBacked ai ctx s h j m =
    ground (arith, h j, total-concat (cycles_of j) s.waiting (asking ai ctx))

tick-IsBacked : (ais : List String) (s : LoopState) → IsBacked s → IsBacked (tick ais s)
unfolding tick
tick-IsBacked [] s h = h
tick-IsBacked (ai ∷ ais) s h = tick-IsBacked ais (begin ai none s) (begin-IsBacked ai none s h)

gate-IsBacked :
    (pending : Pending) (paused : Bool) (ai : String) (ctx : Option WakeContext)
    (rest : List Invocation) (s : LoopState)
    → ((j : String) → has j s.in_flight ≡ true → 0 < cycles j rest)
    → IsBacked (gate pending paused ai ctx rest s)
unfolding gate
gate-IsBacked failed paused ai ctx rest s h j m = h j m
gate-IsBacked (found n) paused ai ctx rest s h j m =
    ground (arith, h j, has-add j ai s.in_flight, total-concat (cycles_of j) rest (cycling ai ctx))

answered-IsBacked :
    (i : ℕ) (pending : Pending) (paused : Bool) (s : LoopState)
    → IsBacked s
    → IsBacked (answered i pending paused s)
unfolding answered
answered-IsBacked i pending paused s h = elim (Option-cases (take_at i s.waiting)) [
  | inl missing ↦ rw (missing, answered) h
  | inr ((asking ai ctx, rest), got) ↦
      rw (got, answered)
        (gate-IsBacked pending paused ai ctx rest s (λ j m.
          omega (arith, h j m, total-take_at (cycles_of j) i s.waiting (asking ai ctx) rest got)))
  | inr ((cycling ai ctx, rest), got) ↦ rw (got, answered) h
]

settled-IsBacked : (i : ℕ) (s : LoopState) → IsBacked s → IsBacked (settled i s)
unfolding settled
settled-IsBacked i s h = elim (Option-cases (take_at i s.waiting)) [
  | inl missing ↦ rw (missing, settled) h
  | inr ((asking ai ctx, rest), got) ↦ rw (got, settled) h
  | inr ((cycling ai ctx, rest), got) ↦
      rw (got, settled)
        (λ j m. ground (
          arith,
          h j,
          has-remove j ai s.in_flight,
          total-take_at (cycles_of j) i s.waiting (cycling ai ctx) rest got,
        ))
]

Step-IsBacked : {s t : LoopState} → Step s t → IsBacked s → IsBacked t
Step-IsBacked {s} (ticks ais) h = tick-IsBacked ais s h
Step-IsBacked {s} (wakes ai ctx) h = begin-IsBacked ai (some ctx) s h
Step-IsBacked {s} (answers i pending paused) h = answered-IsBacked i pending paused s h
Step-IsBacked {s} (settles i) h = settled-IsBacked i s h

Reach-IsBacked : {s t : LoopState} → Reach s t → IsBacked s → IsBacked t
Reach-IsBacked here h = h
Reach-IsBacked (next r st) h = Step-IsBacked st (Reach-IsBacked r h)

-- However the event loop interleaves ticks, wakes, answers and ends of cycles (by a result or an
-- error), an AI that has no cycle running is not marked as in flight, so that its next invocation is
-- not turned away.
pub no_leaked_mark :
    (s : LoopState) (ai : String)
    → Reach idle s
    → cycles ai s.waiting ≡ 0
    → has ai s.in_flight ≡ false
unfolding has
no_leaked_mark s ai r none_running =
    let backed = Reach-IsBacked r (λ j m. cc) in
    elim (Bool-cases (has ai s.in_flight)) [
      | inl m ↦ absurd (omega (arith, backed ai m))
      | inr m ↦ m
    ]
