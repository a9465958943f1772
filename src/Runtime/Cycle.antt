-- ===== src/Runtime/Cycle.antt =====
-- The bounds of a cycle, and the indicator of the AIs at work.
use one_crew.Common.{
  ℕ, zero, suc, ◌+◌, ◌≤◌, ◌≡◌, refl, ◌⊎◌, inl, inr, Bool-cases, String, Bool, true, false, [], ◌∷◌,
  ◌++◌, arith, if◌then◌else◌, str_eq, ◌&&◌, not, eq_iff,
}
use mathlib.Core.List.{append_assoc}
use one_crew.Common.Texts.{◌&◌, Attempt, returns, throws, Attempt-cases}
use one_crew.Common.TextSet.{has, add, has-add, has-remove}
use one_crew.Bridge.{JsonCodec, StopReason, end_turn, stop_tool_use, max_tokens, user_text}
use one_crew.Tools.{DispatchContext}
use one_crew.Tools.Dispatch.{Services}
use one_crew.Runtime.{
  stop, round_cap, rejected, budget_exceeded, retry_exhausted, RunCycleResult, AiRow, Options,
  CycleState, CycleEnv, Ending, finished, thrown, ask, exchange, next_step, run_rounds, rounds_from,
  run_cycle, emit_thinking, usage_of, rounds_of, reason_of, context_for, system_prompt,
}

module _ (json : JsonCodec) (s : Services) where
  -- How a loop of `left` rounds after `n` may end.
  abbrev pub EndsWithin : ℕ → ℕ → Ending json s → Type 0
  EndsWithin left n (finished round_cap k) = k ≡ n + left
  EndsWithin left n (finished stop k) = (suc n ≤ k) × (k ≤ n + left)
  EndsWithin left n (finished budget_exceeded k) = (suc n ≤ k) × (k ≤ n + left)
  EndsWithin left n (finished reason k) = ⊥
  EndsWithin left n (thrown k) = (suc n ≤ k) × (k ≤ n + left)

  -- What the rounds leave as it is: the indicator, which only the cycle's frame touches.
  abbrev SameFrame : CycleState json s → CycleState json s → Type 0
  SameFrame st st' =
      (st'.thinking ≡ st.thinking) × (st'.events ≡ st.events) × (st'.io_ready ≡ st.io_ready)

  later_end :
      (left n : ℕ) (e : Ending json s) → EndsWithin left (suc n) e → EndsWithin (suc left) n e
  later_end left n (finished round_cap k) h = omega (arith, h)
  later_end left n (finished stop k) (h, g) = ((omega (arith, h)), (omega (arith, g)))
  later_end left n (finished budget_exceeded k) (h, g) = ((omega (arith, h)), (omega (arith, g)))
  later_end left n (thrown k) (h, g) = ((omega (arith, h)), (omega (arith, g)))
  later_end left n (finished retry_exhausted k) h = elim h [ ]
  later_end left n (finished rejected k) h = elim h [ ]

  module _ (env : CycleEnv json s) (ctx : DispatchContext) (system : String) where
    abbrev Ends : ℕ → ℕ → CycleState json s → Ending json s × CycleState json s → Type 0
    Ends left n st r = EndsWithin left n r.0 × SameFrame st r.1

    step-Ends :
        (over : Bool) (reason : StopReason) (left n : ℕ) (w : s.World) (st : CycleState json s)
        (rest : Ending json s × CycleState json s)
        → Ends left (suc n) st rest
        → Ends (suc left) n st (next_step json s env ctx system over reason (suc n) w st rest)
    step-Ends true reason left n w st rest h = (((omega arith), (omega arith)), (refl, refl, refl))
    step-Ends false stop_tool_use left n w st rest h = (later_end left n rest.0 h.0, h.1)
    step-Ends false end_turn left n w st rest h =
        (((omega arith), (omega arith)), (refl, refl, refl))
    step-Ends false max_tokens left n w st rest h =
        (((omega arith), (omega arith)), (refl, refl, refl))

    rounds_end :
        (left n : ℕ) (st : CycleState json s)
        → Ends left n st (run_rounds json s env ctx system left n st)
    unfolding run_rounds
    rounds_end zero n st = ((omega arith), (refl, refl, refl))
    rounds_end (suc left) n st =
        elim (Attempt-cases (ask json s env ctx system (suc n) st.messages)) [
          | inr (m, e) ↦ rw (e, run_rounds) (((omega arith), (omega arith)), (refl, refl, refl))
          | inl (response, e) ↦
              let (over, w) = s.track_usage (usage_of json s response) st.world in
              let st' = exchange json s env ctx system response (record st { world = w }) in
              rw (e, run_rounds)
                (step-Ends over response.stop_reason left n w st
                  (run_rounds json s env ctx system left (suc n) st') (rounds_end left (suc n) st'))
        ]

  abbrev pub IsBounded : Ending json s → Type 0
  IsBounded e = (rounds_of json s e ≤ 5) × (reason_of json s e ≡ round_cap → rounds_of json s e ≡ 5)

  ends-IsBounded : (e : Ending json s) → EndsWithin 5 0 e → IsBounded e
  ends-IsBounded (finished round_cap k) h = ((omega (arith, h)), (λ r. h))
  ends-IsBounded (finished stop k) (h, g) = (g, (λ r. cc))
  ends-IsBounded (finished budget_exceeded k) (h, g) = (g, (λ r. cc))
  ends-IsBounded (thrown k) (h, g) = (g, (λ r. cc))
  ends-IsBounded (finished retry_exhausted k) h = elim h [ ]
  ends-IsBounded (finished rejected k) h = elim h [ ]

  frame_of :
      (env : CycleEnv json s) (ctx : DispatchContext) (system : String)
      (built : Attempt (String × Bool)) (st : CycleState json s)
      → IsBounded (rounds_from json s env ctx system built st).0
        × SameFrame st (rounds_from json s env ctx system built st).2
  frame_of env ctx system (throws m) st = (((omega arith), (λ r. cc)), (refl, refl, refl))
  frame_of env ctx system (returns (content, injected)) st =
      let st' = record st { messages = user_text content ∷ [] } in
      let (ends, frame) = rounds_end env ctx system 5 0 st' in
      (ends-IsBounded (run_rounds json s env ctx system 5 0 st').0 ends, frame)

  shown_events :
      (id : String) (st st' : CycleState json s)
      → SameFrame (emit_thinking json s id true st) st'
      → (emit_thinking json s id false st').events
        ≡ (if st.io_ready then st.events ++ (id, true) ∷ (id, false) ∷ [] else st.events)
  unfolding emit_thinking
  shown_events id st st' (t, e, r) =
      ground (arith, e, r, append_assoc st.events ((id, true) ∷ []) ((id, false) ∷ []))

  shown_thinking :
      (id other : String) (st st' : CycleState json s)
      → SameFrame (emit_thinking json s id true st) st'
      → has other (emit_thinking json s id false st').thinking
        ≡ (has other st.thinking && not (str_eq id other))
  unfolding emit_thinking
  shown_thinking id other st st' (t, e, r) =
      rw (t, has-remove other id (add id st.thinking), has-add other id st.thinking)
        (ground (arith, eq_iff id other))

  -- The row that the cycle reads first is an AI's; or the read throws, or the row is a person's.
  abbrev pub FindsAi : Attempt AiRow → Type 0
  FindsAi (throws m) = ⊥
  FindsAi (returns ai) = ai.is_ai ≡ true

  abbrev pub FindsNone : Attempt AiRow → Type 0
  FindsNone (throws m) = Unit
  FindsNone (returns ai) = ai.is_ai ≡ false

  -- A result within the bound of the rounds, and the frame of the indicator.
  abbrev pub Concludes :
      String → CycleState json s → Attempt RunCycleResult × CycleState json s → Type 0
  Concludes id st (a, st') =
      (r : RunCycleResult) × (a ≡ returns r)
      × (r.rounds ≤ 5)
      × (r.finish_reason ≡ round_cap → r.rounds ≡ 5)
      × (st'.events
          ≡ (if st.io_ready then st.events ++ (id, true) ∷ (id, false) ∷ [] else st.events))
      × ((other : String)
          → has other st'.thinking ≡ (has other st.thinking && not (str_eq id other)))

  pub conclusion_of :
      (env : CycleEnv json s) (prompts : String → String) (id : String) (options : Options)
      (ai : AiRow) (built : Attempt (String × Bool)) (st : CycleState json s)
      → ai.is_ai ≡ true
      → Concludes id st (run_cycle json s env prompts id options (returns ai) built st)
  unfolding run_cycle
  conclusion_of env prompts id options ai built st h =
      let ctx = context_for json s id options ai in
      let system = system_prompt s.js.trim prompts ai in
      let st₁ = emit_thinking json s id true st in
      let (bounded, frame) = frame_of env ctx system built st₁ in
      let st₂ = (rounds_from json s env ctx system built st₁).2 in
      rw (h, run_cycle)
        (
          _,
          refl,
          bounded.0,
          bounded.1,
          shown_events id st st₂ frame,
          (λ other. shown_thinking id other st st₂ frame),
        )

  -- If the first read of the user throws, or delivers a user that is no AI, a cycle throws and leaves
  -- everything as it is. Otherwise it ends with a result, whatever the model, the tools and the
  -- database do from there on: it took five rounds at most, and exactly five if the cap stopped it. The
  -- AI is announced as thinking once and as done once, if the realtime server is up, and afterwards it
  -- is not among the AIs at work, while every other AI is as before.
  pub cycle_ends :
      (env : CycleEnv json s) (prompts : String → String) (id : String) (options : Options)
      (row : Attempt AiRow) (built : Attempt (String × Bool)) (st : CycleState json s)
      → (FindsNone row
          × ((m : String) × (run_cycle json s env prompts id options row built st
                ≡ (throws m, st))))
        ⊎ (FindsAi row × Concludes id st (run_cycle json s env prompts id options row built st))
  unfolding run_cycle
  cycle_ends env prompts id options (throws m) built st = inl (tt, (m, refl))
  cycle_ends env prompts id options (returns ai) built st = elim (Bool-cases ai.is_ai) [
    | inl colleague ↦ inr (colleague, conclusion_of env prompts id options ai built st colleague)
    | inr person ↦ inl (
      person,
      ("runCycle called for non-AI user " & id & " (User.isAI === false)", rw person refl),
    )
  ]
