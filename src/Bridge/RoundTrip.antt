-- ===== src/Bridge/RoundTrip.antt =====
-- An assistant turn sent to OpenAI and read back.
use one_crew.Common.{
  ◌≡◌, ◌∙◌, refl, ap, String, none, some, Option, List, [], ◌∷◌, ◌++◌, arith, str_eq, eq_iff,
  str_eq_of_ne, if◌then◌else◌,
}
use one_crew.Common.Json.{Json}
use one_crew.Bridge.Pairing.{requested}
use one_crew.Bridge.{
  JsonCodec, MessageParam, user_text, user_results, ToolResult, tool_messages, all_to_chat, Block,
  text_block, tool_use, FunctionCall, ChatMessage, system, user, tool, reply, calling, ResponseCall,
  function, unknown_call, FinishReason, Choice, ChatCompletion, join, texts, non_empty,
  join_text_blocks, or_no_fields, function_calls, assistant_message, text_blocks, call_blocks,
  assistant, to_openai_messages, to_chat, parse_tool_arguments, to_anthropic_message,
}

-- The turn as it is read back: the texts as one block, if there is any text, then the tool_use blocks
-- in their order, with `{}` for an input that is null.
abbrev uses_of : List Block → List Block
uses_of [] = []
uses_of (text_block t ∷ bs) = uses_of bs
uses_of (tool_use id name input ∷ bs) = tool_use id name (or_no_fields input) ∷ uses_of bs

abbrev one_text : String → List Block
one_text t = if str_eq t "" then [] else text_block t ∷ []

abbrev pub normal : List Block → List Block
normal bs = one_text (join (texts bs)) ++ uses_of bs

abbrev pub normal_turns : List MessageParam → List (List Block)
normal_turns [] = []
normal_turns (assistant bs ∷ ms) = normal bs ∷ normal_turns ms
normal_turns (user_text t ∷ ms) = normal_turns ms
normal_turns (user_results rs ∷ ms) = normal_turns ms

abbrev as_calls : List FunctionCall → List ResponseCall
as_calls [] = []
as_calls (c ∷ cs) = function c ∷ as_calls cs

-- The choice of a model that says what a chat message says.
abbrev pub choice_of : FinishReason → ChatMessage → Choice
choice_of f (reply t) = record { content = some t; calls = none; finish_reason = some f }
choice_of f (calling t cs) = record {
  content = t;
  calls = some (as_calls cs);
  finish_reason = some f;
}
choice_of f m = record { content = none; calls = none; finish_reason = some f }

-- The ids of the function calls of a response.
abbrev pub function_ids : List ResponseCall → List String
function_ids [] = []
function_ids (unknown_call ∷ cs) = function_ids cs
function_ids (function c ∷ cs) = c.id ∷ function_ids cs

module _ (json : JsonCodec) where
  open json use {stringify, parse, parse_stringify, stringify_ne}

  arguments_read : (v : Json) → parse_tool_arguments json (stringify v) ≡ v
  unfolding parse_tool_arguments
  arguments_read v = rw (str_eq_of_ne (stringify v) "" (stringify_ne v), parse_stringify v) refl

  calls_read : (bs : List Block) → call_blocks json (as_calls (function_calls json bs)) ≡ uses_of bs
  calls_read [] = refl
  calls_read (text_block t ∷ bs) = calls_read bs
  calls_read (tool_use id name input ∷ bs) =
      rw (arguments_read (or_no_fields input), calls_read bs) refl

  text_read : (t : String) → text_blocks (non_empty t) ≡ one_text t
  text_read t = ground (arith)

  abbrev read_back : ChatCompletion → FinishReason → ChatMessage → List Block
  read_back r f m = (to_anthropic_message json (record r { choices = choice_of f m ∷ [] })).content

  message_read :
      (r : ChatCompletion) (f : FinishReason) (t : String) (cs : List FunctionCall)
      → read_back r f (assistant_message (non_empty t) cs)
        ≡ one_text t ++ call_blocks json (as_calls cs)
  unfolding to_anthropic_message
  message_read r f t [] = ground (arith, eq_iff t "")
  message_read r f t (c ∷ cs) = ap (λ bs. bs ++ call_blocks json (as_calls (c ∷ cs))) (text_read t)

  -- What a response that says what an assistant message says is read as, for each such message.
  abbrev pub read_turns : ChatCompletion → FinishReason → List ChatMessage → List (List Block)
  read_turns r f [] = []
  read_turns r f (reply t ∷ ms) = read_back r f (reply t) ∷ read_turns r f ms
  read_turns r f (calling t cs ∷ ms) = read_back r f (calling t cs) ∷ read_turns r f ms
  read_turns r f (system t ∷ ms) = read_turns r f ms
  read_turns r f (user t ∷ ms) = read_turns r f ms
  read_turns r f (tool id t ∷ ms) = read_turns r f ms

  read_tools :
      (r : ChatCompletion) (f : FinishReason) (rs : List ToolResult) (ms : List ChatMessage)
      → read_turns r f (tool_messages rs ++ ms) ≡ read_turns r f ms
  read_tools r f [] ms = refl
  read_tools r f (x ∷ rs) ms = read_tools r f rs ms

  read_assistant :
      (r : ChatCompletion) (f : FinishReason) (t : Option String) (cs : List FunctionCall)
      (ms : List ChatMessage)
      → read_turns r f (assistant_message t cs ∷ ms)
        ≡ read_back r f (assistant_message t cs) ∷ read_turns r f ms
  read_assistant r f t [] ms = refl
  read_assistant r f t (c ∷ cs) ms = refl

  turns_read :
      (r : ChatCompletion) (f : FinishReason) (ms : List MessageParam)
      → read_turns r f (all_to_chat json ms) ≡ normal_turns ms
  unfolding to_chat join_text_blocks
  turns_read r f [] = refl
  turns_read r f (user_text t ∷ ms) = turns_read r f ms
  turns_read r f (user_results rs ∷ ms) =
      read_tools r f rs (all_to_chat json ms) ∙ turns_read r f ms
  turns_read r f (assistant bs ∷ ms) =
      let t = join (texts bs) in
      let cs = function_calls json bs in
      rw
        (
          read_assistant r f (non_empty t) cs (all_to_chat json ms),
          message_read r f t cs,
          calls_read bs,
          turns_read r f ms,
        )
        refl

  -- Every assistant turn of a history that is sent to OpenAI, if it came back as a response, would be
  -- read as the turn with its texts joined in front of its tool calls: no text, call, id, name or
  -- input is lost or changed, but for a null input, which becomes the empty object.
  pub turns_read_back :
      (sys : String) (history : List MessageParam) (r : ChatCompletion) (f : FinishReason)
      → read_turns r f (to_openai_messages json sys history) ≡ normal_turns history
  unfolding to_openai_messages
  turns_read_back sys history r f = turns_read r f history

  ids_kept : (cs : List ResponseCall) → requested (call_blocks json cs) ≡ function_ids cs
  ids_kept [] = refl
  ids_kept (unknown_call ∷ cs) = ids_kept cs
  ids_kept (function c ∷ cs) = ap (λ ids. c.id ∷ ids) (ids_kept cs)

  requested_after_text :
      (t : Option String) (bs : List Block) → requested (text_blocks t ++ bs) ≡ requested bs
  requested_after_text none bs = refl
  requested_after_text (some t) bs = ground (arith, eq_iff t "")

  -- The tool calls that the runtime sees are the function calls of the first choice, each once and in
  -- order, also when the arguments of a call are no JSON; calls of another type are left out.
  pub calls_seen :
      (r : ChatCompletion) (c : Choice) (cs : List Choice) (calls : List ResponseCall)
      → r.choices ≡ c ∷ cs
      → c.calls ≡ some calls
      → requested (to_anthropic_message json r).content ≡ function_ids calls
  unfolding to_anthropic_message
  calls_seen r c cs calls e g =
      rw (e, g, requested_after_text c.content (call_blocks json calls)) (ids_kept calls)
