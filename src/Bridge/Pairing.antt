-- ===== src/Bridge/Pairing.antt =====
-- Tool calls and their answers, in the history and in the chat messages it becomes.
use one_crew.Common.{
  ◌≡◌, refl, ap, String, Option, Bool, true, false, ◌&&◌, List, [], ◌∷◌, ◌++◌, arith,
}
use one_crew.Common.TextSet.{has, remove}
use one_crew.Bridge.{
  JsonCodec, Block, text_block, tool_use, ToolResult, MessageParam, user_text, user_results,
  assistant, FunctionCall, ChatMessage, system, user, tool, reply, calling, function_calls,
  assistant_message, tool_messages, join_text_blocks, to_chat, all_to_chat, to_openai_messages,
}

abbrev pub is_empty : List String → Bool
is_empty [] = true
is_empty (x ∷ xs) = false

abbrev pub requested : List Block → List String
requested [] = []
requested (text_block t ∷ bs) = requested bs
requested (tool_use id name input ∷ bs) = id ∷ requested bs

abbrev call_ids : List FunctionCall → List String
call_ids [] = []
call_ids (c ∷ cs) = c.id ∷ call_ids cs

-- Every result answers a call that is still open.
abbrev pub answers_open : List String → List ToolResult → Bool
answers_open open_calls [] = true
answers_open open_calls (r ∷ rs) =
    let rest = answers_open (remove r.tool_use_id open_calls) rs in
    has r.tool_use_id open_calls && rest

abbrev pub still_open : List String → List ToolResult → List String
still_open open_calls [] = open_calls
still_open open_calls (r ∷ rs) = still_open (remove r.tool_use_id open_calls) rs

-- A history in which every result answers an open call, and no call is open when a user or an
-- assistant speaks, nor at the end.
abbrev pub is_paired : List String → List MessageParam → Bool
is_paired open_calls [] = is_empty open_calls
is_paired open_calls (user_text t ∷ ms) = let rest = is_paired [] ms in is_empty open_calls && rest
is_paired open_calls (user_results rs ∷ ms) =
    let rest = is_paired (still_open open_calls rs) ms in answers_open open_calls rs && rest
is_paired open_calls (assistant bs ∷ ms) =
    let rest = is_paired (requested bs) ms in is_empty open_calls && rest

-- The same of chat messages, which is what the chat completions ask of their input.
abbrev pub is_accepted : List String → List ChatMessage → Bool
is_accepted open_calls [] = is_empty open_calls
is_accepted open_calls (system t ∷ ms) = let rest = is_accepted [] ms in is_empty open_calls && rest
is_accepted open_calls (user t ∷ ms) = let rest = is_accepted [] ms in is_empty open_calls && rest
is_accepted open_calls (tool id t ∷ ms) =
    let rest = is_accepted (remove id open_calls) ms in has id open_calls && rest
is_accepted open_calls (reply t ∷ ms) = let rest = is_accepted [] ms in is_empty open_calls && rest
is_accepted open_calls (calling t cs ∷ ms) =
    let rest = is_accepted (call_ids cs) ms in is_empty open_calls && rest

accepted-tool_messages :
    (open_calls : List String) (rs : List ToolResult) (ms : List ChatMessage)
    → is_accepted open_calls (tool_messages rs ++ ms)
      ≡ (answers_open open_calls rs && is_accepted (still_open open_calls rs) ms)
accepted-tool_messages o [] ms = refl
accepted-tool_messages o (r ∷ rs) ms =
    ground (arith, accepted-tool_messages (remove r.tool_use_id o) rs ms)

call_ids-function_calls :
    (json : JsonCodec) (bs : List Block) → call_ids (function_calls json bs) ≡ requested bs
call_ids-function_calls json [] = refl
call_ids-function_calls json (text_block t ∷ bs) = call_ids-function_calls json bs
call_ids-function_calls json (tool_use id name input ∷ bs) =
    ap (λ ids. id ∷ ids) (call_ids-function_calls json bs)

by_calls :
    (o : List String) (t : Option String) (cs : List FunctionCall) (ms : List ChatMessage)
    → is_accepted o (assistant_message t cs ∷ ms) ≡ (is_empty o && is_accepted (call_ids cs) ms)
by_calls o t [] ms = refl
by_calls o t (c ∷ cs) ms = refl

assistant_accepted :
    (json : JsonCodec) (o : List String) (t : Option String) (bs : List Block)
    (ms : List ChatMessage)
    → is_accepted o (assistant_message t (function_calls json bs) ∷ ms)
      ≡ (is_empty o && is_accepted (requested bs) ms)
assistant_accepted json o t bs ms =
    rw (← call_ids-function_calls json bs) (by_calls o t (function_calls json bs) ms)

all_accepted :
    (json : JsonCodec) (o : List String) (ms : List MessageParam)
    → is_accepted o (all_to_chat json ms) ≡ is_paired o ms
unfolding to_chat
all_accepted json o [] = refl
all_accepted json o (user_text t ∷ ms) = ground (arith, all_accepted json [] ms)
all_accepted json o (user_results rs ∷ ms) = ground (
  arith,
  accepted-tool_messages o rs (all_to_chat json ms),
  all_accepted json (still_open o rs) ms,
)
all_accepted json o (assistant bs ∷ ms) = ground (
  arith,
  assistant_accepted json o (join_text_blocks bs) bs (all_to_chat json ms),
  all_accepted json (requested bs) ms,
)

-- Whatever the history, the chat messages made of it answer every tool call, and only tool calls
-- that are open, exactly when the history does.
pub pairing_kept :
    (json : JsonCodec) (sys : String) (history : List MessageParam)
    → is_accepted [] (to_openai_messages json sys history) ≡ is_paired [] history
unfolding to_openai_messages
pairing_kept json sys history = all_accepted json [] history
