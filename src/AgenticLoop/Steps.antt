-- ===== src/AgenticLoop/Steps.antt =====
-- The interleavings of the loop as a step relation, and how many cycles of an AI are running.
use one_crew.Common.{
  ℕ, zero, suc, ◌+◌, ◌≡◌, String, Bool, some, List, [], ◌∷◌, ◌++◌, arith, str_eq, take_at,
  if◌then◌else◌, Option-cases, inl, inr,
}
use one_crew.WakeChain.{WakeContext}
use one_crew.AgenticLoop.{
  Invocation, asking, cycling, Pending, LoopState, begin, answered, settled, tick,
}

pub data Step (s : LoopState) : LoopState → Type 0 where
  ticks : (ais : List String) → Step s (tick ais s)
  wakes : (ai : String) (ctx : WakeContext) → Step s (begin ai (some ctx) s)
  answers : (i : ℕ) (pending : Pending) (paused : Bool) → Step s (answered i pending paused s)
  settles : (i : ℕ) → Step s (settled i s)

pub data Reach (s : LoopState) : LoopState → Type 0 where
  here : Reach s s
  next : {t u : LoopState} → Reach s t → Step t u → Reach s u

-- The module as it is loaded.
abbrev pub idle : LoopState
idle = record { in_flight = []; waiting = [] }

abbrev pub cycles_of : String → Invocation → ℕ
cycles_of ai (asking j ctx) = 0
cycles_of ai (cycling j ctx) = if str_eq j ai then 1 else 0

abbrev pub asks_of : String → Invocation → ℕ
asks_of ai (asking j ctx) = if str_eq j ai then 1 else 0
asks_of ai (cycling j ctx) = 0

abbrev pub total : (Invocation → ℕ) → List Invocation → ℕ
total f [] = 0
total f (x ∷ xs) = f x + total f xs

-- How many cycles of an AI run at once, and how many of its invocations wait for the first answer.
abbrev pub cycles : String → List Invocation → ℕ
cycles ai = total (cycles_of ai)

abbrev pub asks : String → List Invocation → ℕ
asks ai = total (asks_of ai)

pub total-concat :
    (f : Invocation → ℕ) (xs : List Invocation) (x : Invocation)
    → total f (xs ++ x ∷ []) ≡ total f xs + f x
total-concat f [] x = omega arith
total-concat f (y ∷ xs) x = omega (arith, total-concat f xs x)

pub total-take_at :
    (f : Invocation → ℕ) (i : ℕ) (xs : List Invocation) (x : Invocation) (rest : List Invocation)
    → take_at i xs ≡ some (x, rest)
    → total f xs ≡ total f rest + f x
total-take_at f i [] x rest e = cc
total-take_at f zero (y ∷ xs) x rest e = ground arith
total-take_at f (suc i) (y ∷ xs) x rest e = elim (Option-cases (take_at i xs)) [
  | inl missing ↦ ground arith
  | inr ((z, zs), got) ↦ ground (arith, total-take_at f i xs z zs got)
]
