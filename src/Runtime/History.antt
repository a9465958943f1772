-- ===== src/Runtime/History.antt =====
-- The conversation that a cycle builds is one that the chat completions accept.
use one_crew.Common.{
  ℕ, zero, suc, ◌+◌, ◌≡◌, ◌≢◌, refl, sym, ◌∙◌, inl, inr, String, Bool, true, false, List, [], ◌∷◌,
  ◌++◌, arith, All, str_eq_of_ne,
}
use text.Mathlib.TextPositions.{eq_refl}
use one_crew.Common.Texts.{returns, throws, Attempt-cases}
use one_crew.Common.TextSet.{has, remove}
use one_crew.Tasks.Issue.{AreDistinct}
use one_crew.Bridge.{
  JsonCodec, Block, text_block, tool_use, ToolResult, MessageParam, user_text, user_results,
  assistant, Message, StopReason, end_turn, stop_tool_use, max_tokens, ChatCompletion,
  to_anthropic_message, to_openai_messages,
}
use one_crew.Bridge.Pairing.{
  requested, answers_open, still_open, is_paired, is_accepted, pairing_kept,
}
use one_crew.Tools.{DispatchContext, ToolCall}
use one_crew.Tools.Dispatch.{Services, dispatch}
use one_crew.Tools.Answers.{dispatch_answers}
use one_crew.Retry.{ChatRequest, openai_request}
use one_crew.Retry.Attempts.{first_answer}
use one_crew.Tools.Definitions.{tool_definitions}
use one_crew.Runtime.{
  trimmed, max_output_tokens, CycleState, CycleEnv, Ending, dispatch_all, ask, exchange, next_step,
  run_rounds, usage_of,
}

abbrev result_ids : List ToolResult → List String
result_ids [] = []
result_ids (r ∷ rs) = r.tool_use_id ∷ result_ids rs

remove_fresh : (x : String) (ys : List String) → All (λ y. x ≢ y) ys → remove x ys ≡ ys
unfolding remove
remove_fresh x [] h = refl
remove_fresh x (y ∷ ys) (n, ns) = rw (str_eq_of_ne y x (λ e. n (sym e)), remove_fresh x ys ns) refl

all_answered :
    (rs : List ToolResult)
    → AreDistinct (result_ids rs)
    → (answers_open (result_ids rs) rs ≡ true) × (still_open (result_ids rs) rs ≡ [])
unfolding has remove
all_answered [] d = (refl, refl)
all_answered (r ∷ rs) (fresh, d) =
    let (answers, closed) = all_answered rs d in
    let p = remove_fresh r.tool_use_id (result_ids rs) fresh in
    rw (eq_refl r.tool_use_id, p) (answers, closed)

paired_append :
    (o : List String) (ms rest : List MessageParam)
    → is_paired o ms ≡ true
    → is_paired [] rest ≡ true
    → is_paired o (ms ++ rest) ≡ true
paired_append [] [] rest h g = g
paired_append (x ∷ o) [] rest h g = cc
paired_append o (user_text t ∷ ms) rest h g = ground (arith, paired_append [] ms rest)
paired_append o (user_results rs ∷ ms) rest h g =
    ground (arith, paired_append (still_open o rs) ms rest)
paired_append o (assistant bs ∷ ms) rest h g = ground (arith, paired_append (requested bs) ms rest)

exchange_paired :
    (bs : List Block) (rs : List ToolResult)
    → AreDistinct (requested bs)
    → result_ids rs ≡ requested bs
    → is_paired [] (assistant bs ∷ user_results rs ∷ []) ≡ true
exchange_paired bs rs d e =
    let (answers, closed) = all_answered rs (rw e d) in rw (← e, answers, closed) refl

module _ (json : JsonCodec) (s : Services) where
  dispatch_all-ids :
      (ctx : DispatchContext) (bs : List Block) (w : s.World)
      → result_ids (dispatch_all json s ctx bs w).0 ≡ requested bs
  unfolding dispatch_all
  dispatch_all-ids ctx [] w = refl
  dispatch_all-ids ctx (text_block t ∷ bs) w = dispatch_all-ids ctx bs w
  dispatch_all-ids ctx (tool_use id name input ∷ bs) w =
      let call : ToolCall = record { id = id; name = name; input = input } in
      rw (dispatch_answers s ctx call w, dispatch_all-ids ctx bs (dispatch s ctx call w).1) refl

  module _ (env : CycleEnv json s) (ctx : DispatchContext) (system : String) where
    -- A model gives the calls of one response different ids.
    abbrev pub GivesDistinctIds : Type 0
    GivesDistinctIds =
        (n k : ℕ) (q : ChatRequest) (c : ChatCompletion)
        → env.client n k q ≡ returns c
        → AreDistinct (requested (to_anthropic_message json c).content)

    ask-distinct :
        (n : ℕ) (ms : List MessageParam) (m : Message)
        → GivesDistinctIds
        → ask json s env ctx system n ms ≡ returns m
        → AreDistinct (requested m.content)
    ask-distinct n ms m g e =
        let request =
          openai_request json env.model system tool_definitions (trimmed json s ms)
            max_output_tokens in
        elim (first_answer json env.jitter (λ attempt. env.client n attempt request)) [
          | inl (k, c, le, before, hit, result, len) ↦
              let q : returns (to_anthropic_message json c) ≡ returns m = sym result ∙ e in
              let p : to_anthropic_message json c ≡ m = cc in rw (← p) (g n (0 + k) request c hit)
          | inr (err, all, last, result, len) ↦
              let q : throws err ≡ returns m = sym result ∙ e in cc
        ]

    step_paired :
        (over : Bool) (reason : StopReason) (n : ℕ) (w : s.World) (st : CycleState json s)
        (rest : Ending json s × CycleState json s)
        → is_paired [] st.messages ≡ true
        → is_paired [] rest.1.messages ≡ true
        → is_paired [] (next_step json s env ctx system over reason n w st rest).1.messages ≡ true
    step_paired true reason n w st rest h k = h
    step_paired false stop_tool_use n w st rest h k = k
    step_paired false end_turn n w st rest h k = h
    step_paired false max_tokens n w st rest h k = h

    rounds_paired :
        (left n : ℕ) (st : CycleState json s)
        → GivesDistinctIds
        → is_paired [] st.messages ≡ true
        → is_paired [] (run_rounds json s env ctx system left n st).1.messages ≡ true
    unfolding run_rounds
    rounds_paired zero n st g h = h
    rounds_paired (suc left) n st g h =
        elim (Attempt-cases (ask json s env ctx system (suc n) st.messages)) [
          | inr (m, e) ↦ rw (e, run_rounds) h
          | inl (response, e) ↦
              let (over, w) = s.track_usage (usage_of json s response) st.world in
              let st' = exchange json s env ctx system response (record st { world = w }) in
              let rs = (dispatch_all json s ctx response.content w).0 in
              let longer : is_paired [] st'.messages ≡ true =
                paired_append [] st.messages (assistant response.content ∷ user_results rs ∷ []) h (
                  exchange_paired response.content rs
                    (ask-distinct (suc n) st.messages response g e)
                    (dispatch_all-ids ctx response.content w)) in
              rw (e, run_rounds)
                (step_paired over response.stop_reason (suc n) w st
                  (run_rounds json s env ctx system left (suc n) st') h
                  (rounds_paired left (suc n) st' g longer))
        ]

    -- If a model gives the calls of a response different ids, then the conversation of a cycle, as it
    -- stands after any number of rounds and however the cycle ends, becomes chat messages in which
    -- every tool call is answered and every answer has its call, as the chat completions ask.
    pub history_accepted :
        (left n : ℕ) (st : CycleState json s) (content : String)
        → GivesDistinctIds
        → st.messages ≡ user_text content ∷ []
        → is_accepted []
            (to_openai_messages json system (run_rounds json s env ctx system left n st).1.messages)
          ≡ true
    history_accepted left n st content g e =
        pairing_kept json system (run_rounds json s env ctx system left n st).1.messages
        ∙ rounds_paired left n st g (rw e refl)
