-- ===== src/Bridge/Tests.antt =====
-- Runs of the bridge on a history with tool calls, with the codec of Bridge/Codec.
use one_crew.Common.{◌≡◌, none, some, List, [], ◌∷◌}
use one_crew.Common.Json.{null, object, end}
use one_crew.Bridge.{
  text_block, tool_use, ToolResult, MessageParam, user_text, user_results, assistant, stop,
  ResponseCall, function, unknown_call, Choice, ChatCompletion, to_openai_messages,
}
use one_crew.Bridge.Codec.{codec}
use one_crew.Bridge.RoundTrip.{read_turns, turns_read_back}

abbrev answer : ToolResult
answer = record { tool_use_id = "t1"; content = "done"; is_error = none }

abbrev history : List MessageParam
history =
    user_text "move it"
    ∷ assistant (text_block "I " ∷ tool_use "t1" "update" null ∷ text_block "will" ∷ [])
    ∷ user_results (answer ∷ [])
    ∷ assistant (text_block "moved" ∷ [])
    ∷ []

abbrev calls : List ResponseCall
calls =
    function (record { id = "t1"; name = "update"; arguments = "broken" })
    ∷ unknown_call
    ∷ function (record { id = "t2"; name = "list"; arguments = "" })
    ∷ []

abbrev choice : Choice
choice = record { content = some "ok"; calls = some calls; finish_reason = none }

abbrev response : ChatCompletion
response = record { id = "r"; model = "m"; choices = choice ∷ []; usage = none }

turns_read_back_example :
    read_turns codec response stop (to_openai_messages codec "rules" history)
    ≡ (text_block "I will" ∷ tool_use "t1" "update" (object end) ∷ [])
      ∷ (text_block "moved" ∷ [])
      ∷ []
turns_read_back_example = turns_read_back codec "rules" history response stop
