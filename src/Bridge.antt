-- ===== src/Bridge.antt =====
-- lib/ai/openai-bridge.ts: the conversion between the runtime's messages, in Anthropic's shape, and
-- the chat completions of OpenAI. JavaScript's `JSON.stringify` and `JSON.parse` are parameters.
pub mod RoundTrip
pub mod Pairing
pub mod Codec
mod Tests
use one_crew.Common.{
  ℕ, ◌≡◌, ◌≢◌, String, Bool, Option, none, some, List, [], ◌∷◌, ◌++◌, map, str_eq, if◌then◌else◌,
}
use one_crew.Common.Json.{Json, null, object, end}
use Prim.Native.String

-- `JSON`: a text that `stringify` writes is read back by `parse`, and it is never empty. `parse`
-- throws on what is no JSON, which is `none`.
pub record JsonCodec : Type 0 where
  pub stringify : Json → String
  pub parse : String → Option Json
  pub parse_stringify : (v : Json) → parse (stringify v) ≡ some v
  pub stringify_ne : (v : Json) → stringify v ≢ ""

-- `AnthropicLikeContentBlock`
pub data Block : Type 0 where
  text_block : (text : String) → Block
  tool_use : (id name : String) (input : Json) → Block

-- `AnthropicLikeToolResultBlock`
pub record ToolResult : Type 0 where
  pub tool_use_id : String
  pub content : String
  pub is_error : Option Bool

-- `AnthropicLikeMessageParam`
pub data MessageParam : Type 0 where
  user_text : (content : String) → MessageParam
  user_results : (content : List ToolResult) → MessageParam
  assistant : (content : List Block) → MessageParam

-- `AnthropicLikeTool`
pub record Tool : Type 0 where
  pub name : String
  pub description : Option String
  pub input_schema : Json

pub data StopReason : Type 0 where
  end_turn : StopReason
  stop_tool_use : StopReason
  max_tokens : StopReason

-- `AnthropicLikeMessage`; its `type`, `role` and `stop_sequence` are constants.
pub record Message : Type 0 where
  pub id : String
  pub model : String
  pub content : List Block
  pub stop_reason : StopReason
  pub input_tokens : ℕ
  pub output_tokens : ℕ

-- A function call of OpenAI, its arguments serialised.
pub record FunctionCall : Type 0 where
  pub id : String
  pub name : String
  pub arguments : String

-- `ChatCompletionMessageParam`: the shapes that the bridge builds.
pub data ChatMessage : Type 0 where
  system : (content : String) → ChatMessage
  user : (content : String) → ChatMessage
  tool : (tool_call_id content : String) → ChatMessage
  reply : (content : String) → ChatMessage
  calling : (content : Option String) (tool_calls : List FunctionCall) → ChatMessage

pub record ChatTool : Type 0 where
  pub name : String
  pub description : Option String
  pub parameters : Json

pub data FinishReason : Type 0 where
  stop length_limit tool_calls content_filter function_call : FinishReason

-- A call in a response: a function call, or one of a type that the bridge does not ask for.
pub data ResponseCall : Type 0 where
  function : FunctionCall → ResponseCall
  unknown_call : ResponseCall

pub record Choice : Type 0 where
  pub content : Option String
  pub calls : Option (List ResponseCall)
  pub finish_reason : Option FinishReason

-- `ChatCompletion`, with the usage as the tokens of the prompt and of the completion.
pub record ChatCompletion : Type 0 where
  pub id : String
  pub model : String
  pub choices : List Choice
  pub usage : Option (ℕ × ℕ)

abbrev to_openai_tool : Tool → ChatTool
to_openai_tool t = record {
  name = t.name;
  description = t.description;
  parameters = t.input_schema;
}

unfoldable pub to_openai_tools : List Tool → List ChatTool
to_openai_tools tools = map to_openai_tool tools

abbrev pub join : List String → String
join [] = ""
join (t ∷ ts) = String.◌++◌ t (join ts)

-- `content.filter(b => b.type === 'text').map(b => b.text)`
abbrev pub texts : List Block → List String
texts [] = []
texts (text_block t ∷ bs) = t ∷ texts bs
texts (tool_use id name input ∷ bs) = texts bs

abbrev pub non_empty : String → Option String
non_empty t = if str_eq t "" then none else some t

unfoldable pub join_text_blocks : List Block → Option String
join_text_blocks content = non_empty (join (texts content))

abbrev pub or_empty : Option String → String
or_empty none = ""
or_empty (some t) = t

-- `input ?? {}`
abbrev pub or_no_fields : Json → Json
or_no_fields null = object end
or_no_fields v = v

unfoldable pub map_finish_reason : FinishReason → StopReason
map_finish_reason tool_calls = stop_tool_use
map_finish_reason length_limit = max_tokens
map_finish_reason _ = end_turn

abbrev or_stop : Option FinishReason → FinishReason
or_stop none = stop
or_stop (some f) = f

abbrev or_zeros : Option (ℕ × ℕ) → ℕ × ℕ
or_zeros none = (0, 0)
or_zeros (some u) = u

abbrev pub assistant_message : Option String → List FunctionCall → ChatMessage
assistant_message text [] = reply (or_empty text)
assistant_message text (c ∷ cs) = calling text (c ∷ cs)

abbrev pub tool_messages : List ToolResult → List ChatMessage
tool_messages [] = []
tool_messages (r ∷ rs) = tool r.tool_use_id r.content ∷ tool_messages rs

abbrev pub or_object : Option Json → Json
or_object none = object end
or_object (some v) = v

abbrev pub text_blocks : Option String → List Block
text_blocks none = []
text_blocks (some t) = if str_eq t "" then [] else text_block t ∷ []

abbrev or_no_calls : Option (List ResponseCall) → List ResponseCall
or_no_calls none = []
or_no_calls (some cs) = cs

-- `response.choices[0]`, which may be missing.
abbrev pub first_choice : List Choice → Choice
first_choice [] = record { content = none; calls = none; finish_reason = none }
first_choice (c ∷ cs) = c

module _ (json : JsonCodec) where
  open json use {stringify, parse}

  -- The tool_use blocks of an assistant turn, as function calls.
  abbrev pub function_calls : List Block → List FunctionCall
  function_calls [] = []
  function_calls (text_block t ∷ bs) = function_calls bs
  function_calls (tool_use id name input ∷ bs) =
      record { id = id; name = name; arguments = stringify (or_no_fields input) }
      ∷ function_calls bs

  -- One turn of the loop over the history.
  unfoldable pub to_chat : MessageParam → List ChatMessage
  unfolding join_text_blocks
  to_chat (user_text content) = user content ∷ []
  to_chat (user_results content) = tool_messages content
  to_chat (assistant content) =
      assistant_message (join_text_blocks content) (function_calls content) ∷ []

  abbrev pub all_to_chat : List MessageParam → List ChatMessage
  all_to_chat [] = []
  all_to_chat (msg ∷ history) = to_chat msg ++ all_to_chat history

  unfoldable pub to_openai_messages : String → List MessageParam → List ChatMessage
  to_openai_messages sys history = system sys ∷ all_to_chat history

  unfoldable pub parse_tool_arguments : String → Json
  parse_tool_arguments raw = if str_eq raw "" then object end else or_object (parse raw)

  abbrev pub call_blocks : List ResponseCall → List Block
  call_blocks [] = []
  call_blocks (unknown_call ∷ cs) = call_blocks cs
  call_blocks (function c ∷ cs) =
      tool_use c.id c.name (parse_tool_arguments c.arguments) ∷ call_blocks cs

  unfoldable pub to_anthropic_message : ChatCompletion → Message
  unfolding parse_tool_arguments map_finish_reason
  to_anthropic_message r =
      let choice = first_choice r.choices in
      record {
        id = r.id;
        model = r.model;
        content = text_blocks choice.content ++ call_blocks (or_no_calls choice.calls);
        stop_reason = map_finish_reason (or_stop choice.finish_reason);
        input_tokens = (or_zeros r.usage).0;
        output_tokens = (or_zeros r.usage).1;
      }
