-- ===== src/Runtime/Trimmed.antt =====
-- What the trimming of a cycle's conversation can cut off.
use one_crew.Common.{
  ◌+◌, ◌≤◌, ◌<◌, ◌≡◌, refl, sym, ◌∙◌, String, true, false, List, [], ◌∷◌, ◌++◌, arith,
}
use one_crew.Common.TextSet.{has}
use one_crew.Context.Suffix.{total, trim_cut}
use one_crew.Bridge.{
  JsonCodec, Block, ToolResult, MessageParam, user_text, user_results, assistant, system,
  tool_messages, to_chat, all_to_chat, to_openai_messages,
}
use one_crew.Bridge.Pairing.{
  requested, answers_open, still_open, is_paired, is_accepted, pairing_kept,
}
use one_crew.Tools.Dispatch.{Services}
use one_crew.Runtime.{message_cost, trimmed, context_token_budget}

-- In a paired history the results that follow a turn answer calls of this turn.
paired_answers :
    (o : List String) (before : List MessageParam) (bs : List Block) (rs : List ToolResult)
    (after : List MessageParam)
    → is_paired o (before ++ assistant bs ∷ user_results rs ∷ after) ≡ true
    → answers_open (requested bs) rs ≡ true
paired_answers o [] bs rs after h = ground (arith, h)
paired_answers o (user_text t ∷ ms) bs rs after h =
    paired_answers [] ms bs rs after (ground (arith, h))
paired_answers o (user_results qs ∷ ms) bs rs after h =
    paired_answers (still_open o qs) ms bs rs after (ground (arith, h))
paired_answers o (assistant cs ∷ ms) bs rs after h =
    paired_answers (requested cs) ms bs rs after (ground (arith, h))

module _ (json : JsonCodec) (s : Services) where
  -- Of a conversation that the chat completions accept whole, let the results of a round and what
  -- follows them fit into the context's budget, and the turn before them not fit with them. Then these
  -- results answer calls of that turn, and what is sent is the system's prompt and, right behind it,
  -- the results with what follows; the turn with the calls is cut off, and the chat completions refuse
  -- what is left.
  pub trim_orphans :
      (sys : String) (before : List MessageParam) (bs : List Block) (r : ToolResult)
      (rs : List ToolResult) (after : List MessageParam)
      → is_accepted []
          (to_openai_messages json sys (before ++ assistant bs ∷ user_results (r ∷ rs) ∷ after))
        ≡ true
      → total (message_cost json s) (user_results (r ∷ rs) ∷ after) ≤ context_token_budget
      → context_token_budget
        < total (message_cost json s) (user_results (r ∷ rs) ∷ after)
          + message_cost json s (assistant bs)
      → let sent =
          to_openai_messages json sys
            (trimmed json s (before ++ assistant bs ∷ user_results (r ∷ rs) ∷ after)) in
        (answers_open (requested bs) (r ∷ rs) ≡ true)
        × (sent ≡ system sys ∷ (tool_messages (r ∷ rs) ++ all_to_chat json after))
        × (is_accepted [] sent ≡ false)
  unfolding trimmed has to_openai_messages to_chat
  trim_orphans sys before bs r rs after whole fits over =
      let kept =
        trim_cut (message_cost json s) context_token_budget before (assistant bs)
          (user_results (r ∷ rs) ∷ after) (omega arith) fits over in
      (
        paired_answers [] before bs (r ∷ rs) after (
            sym (pairing_kept json sys (before ++ assistant bs ∷ user_results (r ∷ rs) ∷ after))
            ∙ whole),
        rw kept refl,
        rw kept (pairing_kept json sys (user_results (r ∷ rs) ∷ after)),
      )
