-- ===== src/Runtime.antt =====
-- lib/ai/runtime.ts: `runCycle`, the rounds of one cycle of an AI, with lib/realtime/thinking.ts. The
-- model's client is a function of the round and the attempt.
pub mod Digest
pub mod History
pub mod Cycle
pub mod Trimmed
mod Tests
use one_crew.Common.{
  ℕ, zero, suc, ◌+◌, String, Bool, true, false, not, Option, none, some, List, [], ◌∷◌, ◌++◌,
  str_eq, if◌then◌else◌, keep,
}
use one_crew.Common.Texts.{◌&◌, join_with, Attempt, returns, throws}
use one_crew.Common.TextSet.{has, add, remove}
use one_crew.Common.Json.{
  Json, null, text, array, object, boolean, Items, nil, cons, Fields, end, field,
}
use one_crew.Budget.{natural, UsageSample}
use one_crew.WakeChain.{WakeContext}
use one_crew.Messages.{Message as ChannelMessage, CreateMessageInput}
use one_crew.Bridge.{
  JsonCodec, Block, text_block, tool_use, ToolResult, MessageParam, user_text, user_results,
  assistant, Message, StopReason, end_turn, stop_tool_use, max_tokens, ChatCompletion,
}
use one_crew.Context.{estimate_tokens, trim_context}
use one_crew.Tools.{DispatchContext, ToolCall}
use one_crew.Tools.Definitions.{tool_definitions}
use one_crew.Tools.Schemas.{lookup}
use one_crew.Tools.Dispatch.{Services, Channel, dispatch}
use one_crew.Retry.{ChatRequest, openai_request, call_with_retry}

abbrev pub max_rounds : ℕ
max_rounds = 5

abbrev pub context_token_budget : ℕ
context_token_budget = 100_000

abbrev pub max_output_tokens : ℕ
max_output_tokens = 1_024

-- `FinishReason`
pub data FinishReason : Type 0 where
  stop round_cap retry_exhausted rejected budget_exceeded : FinishReason

-- `RunCycleResult`, less the duration.
pub record RunCycleResult : Type 0 where
  pub ai_user_id : String
  pub rounds : ℕ
  pub finish_reason : FinishReason
  pub injected_knowledge : Bool

-- The columns of the AI's row that the cycle reads.
pub record AiRow : Type 0 where
  pub name : String
  pub is_ai : Bool
  pub role : Option String
  pub settings : Json

-- `RunCycleOptions`
pub record Options : Type 0 where
  pub extra_instruction : Option String
  pub wake_context : Option WakeContext

abbrev pub some_field : String → Json → Option Json
some_field key (object fs) = lookup key fs
some_field key v = none

abbrev pub non_blank : (String → String) → Option Json → Option String
non_blank trim (some (text s)) = if str_eq (trim s) "" then none else some (trim s)
non_blank trim v = none

-- `getCustomSystemPrompt`
unfoldable pub get_custom_system_prompt : (String → String) → Json → Option String
get_custom_system_prompt trim settings = non_blank trim (some_field "systemPrompt" settings)

abbrev pub text_members : (String → String) → Items → List String
text_members trim nil = []
text_members trim (cons (text s) xs) =
    let rest = text_members trim xs in if str_eq (trim s) "" then rest else s ∷ rest
text_members trim (cons v xs) = text_members trim xs

abbrev pub none_if_empty : List String → Option (List String)
none_if_empty [] = none
none_if_empty (t ∷ ts) = some (t ∷ ts)

abbrev pub as_tools : (String → String) → Option Json → Option (List String)
as_tools trim (some (array xs)) = none_if_empty (text_members trim xs)
as_tools trim v = none

-- `getAllowedTools`
unfoldable pub get_allowed_tools : (String → String) → Json → Option (List String)
get_allowed_tools trim settings = as_tools trim (some_field "toolSet" settings)

-- `getRoleSystemPrompt`, given `SYSTEM_PROMPTS`.
abbrev pub get_role_system_prompt : (String → String) → Option String → Option String
get_role_system_prompt prompts none = none
get_role_system_prompt prompts (some role) =
    if str_eq role "Ada"
    then some (prompts "Ada")
    else if str_eq role "Hopper"
    then some (prompts "Hopper")
    else none

unfoldable pub build_generic_system_prompt : String → String
build_generic_system_prompt name = join_with "\n" (
    ("You are " & name & ", an AI teammate in AI-Native Team Workspace.")
    ∷ "Collaborate with human teammates through channels, tasks, and approvals."
    ∷ "Always write user-facing messages in Simplified Chinese."
    ∷ "For production changes, external communication, destructive actions, or other high-risk work, call request_approval before taking action."
    ∷ [])

abbrev first_prompt : Option String → Option String → String → String
first_prompt (some p) q r = p
first_prompt none (some q) r = q
first_prompt none none r = r

unfoldable pub system_prompt : (String → String) → (String → String) → AiRow → String
unfolding get_custom_system_prompt build_generic_system_prompt
system_prompt trim prompts ai =
    first_prompt (get_custom_system_prompt trim ai.settings)
      (get_role_system_prompt prompts ai.role) (build_generic_system_prompt ai.name)

-- The content of a message as the JSON value that is measured.
abbrev block_json : Block → Json
block_json (text_block t) = object (field "type" (text "text") (field "text" (text t) end))
block_json (tool_use id name input) = object (
    field "type" (text "tool_use")
      (field "id" (text id) (field "name" (text name) (field "input" input end))))

abbrev error_field : Option Bool → Fields
error_field none = end
error_field (some b) = field "is_error" (boolean b) end

abbrev result_json : ToolResult → Json
result_json r = object (
    field "tool_use_id" (text r.tool_use_id) (
      field "type" (text "tool_result")
        (field "content" (text r.content) (error_field r.is_error))))

abbrev block_items : List Block → Items
block_items [] = nil
block_items (b ∷ bs) = cons (block_json b) (block_items bs)

abbrev result_items : List ToolResult → Items
result_items [] = nil
result_items (r ∷ rs) = cons (result_json r) (result_items rs)

abbrev pub content_of : MessageParam → Json
content_of (user_text s) = text s
content_of (user_results rs) = array (result_items rs)
content_of (assistant bs) = array (block_items bs)

-- `channels.find(c => c.name === 'general') ?? channels[0]`
abbrev pub general : List Channel → Option Channel
general [] = none
general (c ∷ cs) = if str_eq c.name "general" then some c else general cs

abbrev first_channel : List Channel → Option Channel
first_channel [] = none
first_channel (c ∷ cs) = some c

abbrev or_first : Option Channel → List Channel → Option Channel
or_first (some c) cs = some c
or_first none cs = first_channel cs

module _ (json : JsonCodec) (s : Services) where
  open s use {World}

  -- What a cycle changes: the conversation, what the services hold, and the process's record of the
  -- AIs at work with the `ai:thinking` events.
  pub record CycleState : Type 0 where
    pub messages : List MessageParam
    pub world : World
    pub thinking : List String
    pub events : List (String × Bool)
    pub io_ready : Bool

  -- What a cycle is given: the client's answers, by round and attempt, and the configuration.
  pub record CycleEnv : Type 0 where
    pub client : ℕ → ℕ → ChatRequest → Attempt ChatCompletion
    pub jitter : ℕ → ℕ
    pub model : String
    pub notice : String

  -- `markThinking` and the event of `emitThinking`.
  unfoldable pub emit_thinking : String → Bool → CycleState → CycleState
  emit_thinking ai on st = record st {
    thinking = if on then add ai st.thinking else remove ai st.thinking;
    events = if st.io_ready then st.events ++ (ai, on) ∷ [] else st.events;
  }

  -- `trimContextToTokenBudget(messages, CONTEXT_TOKEN_BUDGET)`
  abbrev pub message_cost : MessageParam → ℕ
  message_cost m = estimate_tokens s.units json.stringify (content_of m)

  unfoldable pub trimmed : List MessageParam → List MessageParam
  trimmed ms = trim_context message_cost (natural context_token_budget) ms

  -- The tool_use blocks of a response, dispatched one after the other.
  unfoldable pub dispatch_all : DispatchContext → List Block → World → List ToolResult × World
  dispatch_all ctx [] w = ([], w)
  dispatch_all ctx (text_block t ∷ bs) w = dispatch_all ctx bs w
  dispatch_all ctx (tool_use id name input ∷ bs) w =
      let (r, w') = dispatch s ctx (record { id = id; name = name; input = input }) w in
      let (rs, w'') = dispatch_all ctx bs w' in (r ∷ rs, w'')

  abbrev post_to : String → String → Option Channel → World → World
  post_to ai notice none w = w
  post_to ai notice (some c) w =
      (s.post
        (record {
          channel_id = c.id;
          user_id = ai;
          content = notice;
          metadata = some (object (field "event" (text "budget_exceeded") end));
        })
        w).1

  abbrev post_notice : String → String → Attempt (List Channel) → World → World
  post_notice ai notice (throws m) w = w
  post_notice ai notice (returns cs) w = post_to ai notice (or_first (general cs) cs) w

  -- `postBudgetExceededNotice`, which swallows every error.
  unfoldable pub post_budget_exceeded_notice : String → String → World → World
  post_budget_exceeded_notice ai notice w = post_notice ai notice (s.list_channels w) w

  -- How the loop ends: with a reason, or by an error.
  pub data Ending : Type 0 where
    finished : FinishReason → (rounds : ℕ) → Ending
    thrown : (rounds : ℕ) → Ending

  abbrev pub usage_of : Message → UsageSample
  usage_of m = record {
    input_tokens = natural m.input_tokens;
    output_tokens = natural m.output_tokens;
  }

  module _ (env : CycleEnv) (ctx : DispatchContext) (system : String) where
    -- The call of round `n`.
    abbrev pub ask : ℕ → List MessageParam → Attempt Message
    ask n messages =
        let request =
          openai_request json env.model system tool_definitions (trimmed messages)
            max_output_tokens in
        (call_with_retry json env.jitter (λ attempt. env.client n attempt request)).0

    -- The exchange of a round, appended to the conversation.
    abbrev pub exchange : Message → CycleState → CycleState
    exchange response st =
        let (results, w) = dispatch_all ctx response.content st.world in
        record st {
          messages = st.messages ++ assistant response.content ∷ user_results results ∷ [];
          world = w;
        }

    abbrev pub over_budget : World → CycleState → CycleState
    over_budget w st = record st {
      world = post_budget_exceeded_notice ctx.ai_user_id env.notice (s.notify_budget_exceeded w);
    }

    -- What follows the tracking of a response: `break`, or the rest of the loop.
    abbrev pub next_step :
        Bool → StopReason → ℕ → World → CycleState → Ending × CycleState → Ending × CycleState
    next_step true reason n w st rest = (finished budget_exceeded n, over_budget w st)
    next_step false stop_tool_use n w st rest = rest
    next_step false end_turn n w st rest = (finished stop n, record st { world = w })
    next_step false max_tokens n w st rest = (finished stop n, record st { world = w })

    -- The loop, with the rounds that are left and those that are done.
    unfoldable pub run_rounds : ℕ → ℕ → CycleState → Ending × CycleState
    unfolding dispatch_all post_budget_exceeded_notice
    run_rounds zero n st = (finished round_cap n, st)
    run_rounds (suc left) n st = elim (ask (suc n) st.messages) [
      | throws m ↦ (thrown (suc n), st)
      | returns response ↦
          let (over, w) = s.track_usage (usage_of response) st.world in
          next_step over response.stop_reason (suc n) w st
            (run_rounds left (suc n) (exchange response (record st { world = w })))
    ]

  abbrev pub reason_of : Ending → FinishReason
  reason_of (finished reason n) = reason
  reason_of (thrown n) = retry_exhausted

  abbrev pub rounds_of : Ending → ℕ
  rounds_of (finished reason n) = n
  rounds_of (thrown n) = n

  -- The body of the `try`, given what `buildInitialContext` delivers.
  abbrev pub rounds_from :
      CycleEnv
      → DispatchContext
      → String
      → Attempt (String × Bool)
      → CycleState
      → Ending × Bool × CycleState
  rounds_from env ctx system (throws m) st = (thrown 0, false, st)
  rounds_from env ctx system (returns (content, injected)) st =
      let (ending, st') =
        run_rounds env ctx system max_rounds 0 (record st { messages = user_text content ∷ [] }) in
      (ending, injected, st')

  abbrev pub context_for : String → Options → AiRow → DispatchContext
  context_for id options ai = record {
    ai_user_id = id;
    allowed_tools = get_allowed_tools s.js.trim ai.settings;
    wake_context = options.wake_context;
  }

  -- From the announcement of the cycle to its end: `finally` is on every path.
  abbrev pub cycle_of :
      CycleEnv
      → (String → String)
      → String
      → Options
      → Attempt (String × Bool)
      → AiRow
      → CycleState
      → Attempt RunCycleResult × CycleState
  cycle_of env prompts id options built ai st =
      let (ending, injected, st') =
        rounds_from env (context_for id options ai) (system_prompt s.js.trim prompts ai) built
          (emit_thinking id true st) in
      (
        returns (record {
          ai_user_id = id;
          rounds = rounds_of ending;
          finish_reason = reason_of ending;
          injected_knowledge = injected;
        }),
        emit_thinking id false st',
      )

  -- `runCycle`, given the row of the user and the initial context that the database delivers.
  unfoldable pub run_cycle :
      CycleEnv
      → (String → String)
      → String
      → Options
      → Attempt AiRow
      → Attempt (String × Bool)
      → CycleState
      → Attempt RunCycleResult × CycleState
  unfolding run_rounds emit_thinking get_allowed_tools system_prompt
  run_cycle env prompts id options (throws m) built st = (throws m, st)
  run_cycle env prompts id options (returns ai) built st =
      if ai.is_ai
      then cycle_of env prompts id options built ai st
      else (throws ("runCycle called for non-AI user " & id & " (User.isAI === false)"), st)
