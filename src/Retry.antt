-- ===== src/Retry.antt =====
-- lib/ai/anthropic.ts: `callAnthropicWithRetry`. The attempts of the client are a function of their
-- number, and so is `Math.random() * JITTER_MS`; the model's name and the key are configuration.
pub mod Attempts
mod Tests
use one_crew.Common.{ℕ, zero, suc, ◌+◌, ◌*◌, String, Option, none, some, List, [], ◌∷◌}
use one_crew.Common.Texts.{Attempt, returns, throws}
use one_crew.Bridge.{
  JsonCodec, Tool, ChatTool, MessageParam, ChatMessage, ChatCompletion, Message, to_openai_messages,
  to_openai_tools, to_anthropic_message,
}

abbrev pub max_retries : ℕ
max_retries = 3

abbrev pub base_backoff_ms : ℕ
base_backoff_ms = 500

-- `ms * 2 ** n`
abbrev pub doubled : ℕ → ℕ → ℕ
doubled ms zero = ms
doubled ms (suc n) = 2 * doubled ms n

-- `computeBackoffMs`
unfoldable pub compute_backoff_ms : (ℕ → ℕ) → ℕ → ℕ
compute_backoff_ms jitter failed_attempt =
    doubled base_backoff_ms failed_attempt + jitter failed_attempt

-- The request that is sent; its `tool_choice` is 'auto'.
pub record ChatRequest : Type 0 where
  pub model : String
  pub messages : List ChatMessage
  pub tools : List ChatTool
  pub max_tokens : ℕ

unfoldable pub openai_request :
    JsonCodec → String → String → List Tool → List MessageParam → ℕ → ChatRequest
openai_request json model system tools messages max_tokens = record {
  model = model;
  messages = to_openai_messages json system messages;
  tools = to_openai_tools tools;
  max_tokens = max_tokens;
}

module _ (json : JsonCodec) (jitter : ℕ → ℕ) (client : ℕ → Attempt ChatCompletion) where
  -- The loop from an attempt on, with the retries that are left: the result, and the delays slept.
  unfoldable pub attempts_from : ℕ → ℕ → Attempt Message × List ℕ
  attempts_from zero attempt = elim (client attempt) [
    | returns response ↦ (returns (to_anthropic_message json response), [])
    | throws err ↦ (throws err, [])
  ]
  attempts_from (suc left) attempt = elim (client attempt) [
    | returns response ↦ (returns (to_anthropic_message json response), [])
    | throws err ↦
        let (result, delays) = attempts_from left (suc attempt) in
        (result, compute_backoff_ms jitter attempt ∷ delays)
  ]

  unfoldable pub call_with_retry : Attempt Message × List ℕ
  unfolding attempts_from
  call_with_retry = attempts_from max_retries 0
