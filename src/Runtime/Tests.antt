-- ===== src/Runtime/Tests.antt =====
-- Runs of a cycle with the services of Office/Memory and a client that asks for one tool in the first
-- round and answers in the second.
use one_crew.Common.{
  ℕ, zero, suc, ◌≡◌, refl, ◌⊎◌, List, String, true, false, none, some, [], ◌∷◌, str_eq,
  if◌then◌else◌, arith,
}
use one_crew.Common.Texts.{returns, throws}
use one_crew.Common.TextSet.{has, remove}
use one_crew.Common.Json.{null}
use one_crew.Bridge.{
  FunctionCall, ToolResult, user_text, user_results, assistant, Block, tool_use, MessageParam,
  system, tool, ChatCompletion, function, to_chat, to_openai_messages, to_anthropic_message,
}
use one_crew.Bridge.Codec.{codec}
use one_crew.Bridge.Pairing.{is_accepted, requested, answers_open}
use one_crew.Context.{estimate_tokens}
use one_crew.Tools.{DispatchContext}
use one_crew.Tools.Dispatch.{Services}
use one_crew.Runtime.{AiRow, Options, CycleState, CycleEnv, run_cycle, run_rounds, trimmed}
use one_crew.Runtime.Cycle.{FindsNone, FindsAi, Concludes, cycle_ends}
use one_crew.Runtime.History.{GivesDistinctIds, history_accepted}
use one_crew.Runtime.Trimmed.{trim_orphans}
use one_crew.Office.{team}
use one_crew.Office.Memory.{outside, office}

abbrev crew : Services
crew = team outside

abbrev creation : FunctionCall
creation = record { id = "t1"; name = "create_task"; arguments = "{}" }

abbrev asks : ChatCompletion
asks = record {
  id = "r1";
  model = "m";
  choices =
      record { content = none; calls = some (function creation ∷ []); finish_reason = none } ∷ [];
  usage = none;
}

abbrev answers : ChatCompletion
answers = record { id = "r2"; model = "m"; choices = []; usage = none }

abbrev answer_of : ℕ → ChatCompletion
answer_of zero = asks
answer_of (suc zero) = asks
answer_of (suc (suc n)) = answers

abbrev env : CycleEnv codec crew
env = record {
  client = λ n k q. returns (answer_of n);
  jitter = λ n. 0;
  model = "m";
  notice = "out of budget";
}

abbrev ada : AiRow
ada = record { name = "Ada"; is_ai = true; role = some "Ada"; settings = null }

abbrev options : Options
options = record { extra_instruction = none; wake_context = none }

abbrev fresh : CycleState codec crew
fresh = record {
  messages = user_text "what is new" ∷ [];
  world = office;
  thinking = "hopper" ∷ [];
  events = [];
  io_ready = true;
}

cycle_ends_example :
    (FindsNone codec crew (returns ada)
      × ((m : String) × (run_cycle codec crew env
              (λ s. s)
              "ada"
              options
              (returns ada)
              (returns ("hi", false))
              fresh
            ≡ (throws m, fresh))))
    ⊎ (FindsAi codec crew (returns ada)
        × Concludes codec crew "ada" fresh (
            run_cycle codec crew env
              (λ s. s)
              "ada"
              options
              (returns ada)
              (returns ("hi", false))
              fresh))
cycle_ends_example =
    cycle_ends codec crew env (λ s. s) "ada" options (returns ada) (returns ("hi", false)) fresh

abbrev context : DispatchContext
context = record { ai_user_id = "ada"; allowed_tools = none; wake_context = none }

distinct_ids : GivesDistinctIds codec crew env context "rules"
unfolding to_anthropic_message
distinct_ids zero k q c e = let p : asks ≡ c = cc in rw (← p) (tt, tt)
distinct_ids (suc zero) k q c e = let p : asks ≡ c = cc in rw (← p) (tt, tt)
distinct_ids (suc (suc n)) k q c e = let p : answers ≡ c = cc in rw (← p) tt

history_accepted_example :
    is_accepted [] (
      to_openai_messages codec "rules"
        (run_rounds codec crew env context "rules" 5 0 fresh).1.messages)
    ≡ true
history_accepted_example =
    history_accepted codec crew env context "rules" 5 0 fresh "what is new" distinct_ids refl

-- Services whose long page of documents nearly fills the context.
abbrev library : Services
library = record crew { units = λ s. if str_eq s "a long page" then 399_990 else 20_000 }

abbrev page : ToolResult
page = record { tool_use_id = "t1"; content = "a long page"; is_error = none }

abbrev request : Block
request = tool_use "t1" "read_project_docs" null

abbrev reading : List MessageParam
reading = user_text "read it" ∷ assistant (request ∷ []) ∷ user_results (page ∷ []) ∷ []

reading_whole : is_accepted [] (to_openai_messages codec "rules" reading) ≡ true
unfolding to_openai_messages to_chat has remove
reading_whole = refl

trim_orphans_example :
    (answers_open (requested (request ∷ [])) (page ∷ []) ≡ true)
    × (to_openai_messages codec "rules" (trimmed codec library reading)
        ≡ system "rules" ∷ tool "t1" "a long page" ∷ [])
    × (is_accepted [] (to_openai_messages codec "rules" (trimmed codec library reading)) ≡ false)
unfolding estimate_tokens
trim_orphans_example =
    trim_orphans codec library "rules" (user_text "read it" ∷ []) (request ∷ []) page [] []
      reading_whole (omega arith) (omega arith)
